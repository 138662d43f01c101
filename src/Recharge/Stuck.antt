-- ===== src/Recharge/Stuck.antt =====
-- What a gateway that does not answer leaves: the one order with the placeholder of its id, which is
-- unique.
use saas_frontend.Base.{
  ℕ, ◌≡◌, refl, ap, sym, subst, inl, inr, false, List, [], ◌∷◌, ◌==◌, find_one-update_where, ◌||◌,
  Option, none, some, err, arith, Option-cases, Bool-cases,
}
use saas_frontend.Base.Int.{ℤ, pos, ltb_ℤ}
use saas_frontend.Base.Text.{Text, text_eq}
use saas_frontend.Wallet.{wallet_of, recharge}
use saas_frontend.Wallet.Outcome.{credit_cases}
use saas_frontend.Recharge.Confirming.{Confirm, confirm, confirm-keeps, balance_of-keeps}
use saas_frontend.Recharge.Defs.{
  RechargeOrder, Till, Error, Gateway, gateway_failed, amount_out_of_range, wallet_not_found,
  duplicate_gateway_order, initiate_recharge, order_by_gateway, pending_initiation, update_order,
  order_by_id, pay_in, settle, is_success, is_failed, mark_failed,
}

-- An order waits with the placeholder.
abbrev pub IsStuck : Till → Type 0
IsStuck t = (other : RechargeOrder) × (order_by_gateway pending_initiation t ≡ some other)

-- A change of an order that leaves it the gateway's id.
update_order-IsStuck :
    (id : ℕ) (f : RechargeOrder → RechargeOrder) (t : Till)
    → ((o : RechargeOrder) → (f o).gateway_order_id ≡ o.gateway_order_id)
    → IsStuck t
    → IsStuck (update_order id f t)
update_order-IsStuck id f t keep (other, waiting) = (
  _,
  find_one-update_where (λ (o : RechargeOrder). text_eq o.gateway_order_id pending_initiation)
      (λ (o : RechargeOrder). o.id == id) f t.orders {x = other}
      (λ o. ap (λ g. text_eq g pending_initiation) (keep o)) waiting,
)

pay_in-IsStuck :
    (tenant user : ℕ) (payment : Text) (now : ℕ) (o : RechargeOrder) (t : Till)
    → IsStuck t
    → IsStuck (pay_in tenant user payment now o t).1
pay_in-IsStuck tenant user payment now o t stuck =
    elim (credit_cases tenant recharge (some o.id) (some user) t.book (some o.amount)) [
      | inr (e, refused) ↦ rw (pay_in, refused) stuck
      | inl p ↦ rw (pay_in, p.result) (update_order-IsStuck o.id _ t (λ r. refl) stuck)
    ]

settle-IsStuck :
    (id tenant user : ℕ) (payment : Text) (now : ℕ) (t : Till)
    → IsStuck t
    → IsStuck (settle id tenant user payment now t).1
unfolding settle
settle-IsStuck id tenant user payment now t stuck = elim (Option-cases (order_by_id id t)) [
  | inl gone ↦ rw (settle, gone) stuck
  | inr (o, found) ↦ elim (Bool-cases (is_success o.status)) [
    | inr unpaid ↦ rw (settle, found, unpaid) (pay_in-IsStuck tenant user payment now o t stuck)
    | inl done ↦ rw (settle, found, done) (balance_of-keeps IsStuck o.wallet_id t stuck)
  ]
]

mark_failed-IsStuck :
    (o : RechargeOrder) (t : Till)
    → order_by_id o.id t ≡ some o
    → is_success o.status ≡ false
    → IsStuck t
    → IsStuck (mark_failed o t)
unfolding mark_failed
mark_failed-IsStuck o t found unpaid stuck = elim (Bool-cases (is_failed o.status)) [
  | inl marked ↦ rw (mark_failed, marked) stuck
  | inr unmarked ↦ rw (mark_failed, unmarked) (update_order-IsStuck o.id _ t (λ r. refl) stuck)
]

-- An initiation that the gateway does not answer leaves its order behind.
silence-IsStuck :
    (gateway : Gateway) (tenant user : ℕ) (amount : Option ℤ) (t : Till)
    → (initiate_recharge gateway tenant user amount t).0 ≡ err gateway_failed
    → IsStuck (initiate_recharge gateway tenant user amount t).1
silence-IsStuck gateway tenant user none t h = unfold initiate_recharge in absurd (ground arith)
silence-IsStuck gateway tenant user (some amt) t h =
    unfold initiate_recharge in
    elim (Bool-cases (ltb_ℤ amt (pos 10000) || ltb_ℤ (pos 50000000) amt)) [
      | inl out ↦ absurd (ground arith)
      | inr within ↦ elim (Option-cases (wallet_of tenant t.book)) [
        | inl poor ↦ absurd (ground arith)
        | inr (w, found) ↦ elim (Option-cases (order_by_gateway pending_initiation t)) [
          | inr (other, waiting) ↦ absurd (ground arith)
          | inl free ↦ elim (Option-cases (gateway.create_order amt t.next_id)) [
            | inr (g, answered) ↦ absurd (ground arith)
            | inl silent ↦
                elim (Option-cases (
                  order_by_gateway pending_initiation
                    (initiate_recharge gateway tenant user (some amt) t).1)) [
                      | inl lost ↦ absurd (ground arith)
                      | inr left_over ↦ left_over
                    ]
          ]
        ]
      ]
    ]

initiate_recharge-refused :
    (gateway : Gateway) (tenant user : ℕ) (amount : Option ℤ) (t : Till)
    → IsStuck t
    → (e : Error) × (initiate_recharge gateway tenant user amount t ≡ (err e, t))
initiate_recharge-refused gateway tenant user none t (other, found) =
    unfold initiate_recharge in (_, refl)
initiate_recharge-refused gateway tenant user (some amt) t (other, waiting) =
    unfold initiate_recharge in
    elim (Bool-cases (ltb_ℤ amt (pos 10000) || ltb_ℤ (pos 50000000) amt)) [
      | inl out ↦ (amount_out_of_range, ground arith)
      | inr within ↦ elim (Option-cases (wallet_of tenant t.book)) [
        | inl poor ↦ (wallet_not_found, ground arith)
        | inr (w, found) ↦ (duplicate_gateway_order, ground arith)
      ]
    ]

-- The calls of the service, one after another.
pub data Later : Type 0 where
  initiates : Gateway → ℕ → ℕ → Option ℤ → Later
  confirms : Confirm → Later

abbrev pub perform : Later → Till → Till
perform (initiates gateway tenant user amount) t =
    (initiate_recharge gateway tenant user amount t).1
perform (confirms c) t = confirm c t

abbrev pub perform_all : List Later → Till → Till
perform_all [] t = t
perform_all (c ∷ cs) t = perform_all cs (perform c t)

perform_all-IsStuck : (cs : List Later) (t : Till) → IsStuck t → IsStuck (perform_all cs t)
perform_all-IsStuck [] t stuck = stuck
perform_all-IsStuck (initiates gateway tenant user amount ∷ cs) t stuck =
    let (e, same) = initiate_recharge-refused gateway tenant user amount t stuck in
    perform_all-IsStuck cs _ (subst IsStuck (sym (ap (λ z. z.1) same)) stuck)
perform_all-IsStuck (confirms c ∷ cs) t stuck =
    perform_all-IsStuck cs _ (confirm-keeps IsStuck settle-IsStuck mark_failed-IsStuck c t stuck)

-- Once the gateway has failed to answer an initiation, no initiation succeeds any more: after whatever
-- verifications, webhooks and initiations come next, one of any tenant and amount ends in an error and
-- changes nothing. The orders of before can still be paid in.
pub gateway_failed-stops :
    (gateway gateway' : Gateway) (tenant tenant' user user' : ℕ) (amount amount' : Option ℤ)
    (cs : List Later) (t : Till)
    → (initiate_recharge gateway tenant user amount t).0 ≡ err gateway_failed
    → let t' = perform_all cs (initiate_recharge gateway tenant user amount t).1 in
      (e : Error) × (initiate_recharge gateway' tenant' user' amount' t' ≡ (err e, t'))
gateway_failed-stops gateway gateway' tenant tenant' user user' amount amount' cs t h =
    initiate_recharge-refused gateway' tenant' user' amount' _
      (perform_all-IsStuck cs _ (silence-IsStuck gateway tenant user amount t h))
