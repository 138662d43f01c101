-- ===== src/Recharge/Once.antt =====
-- How often an order of a recharge is paid in.
use saas_frontend.Base.{
  ℕ, ◌≤◌, ◌≡◌, refl, sym, ap, subst, ◌∙◌, inl, inr, Bool, true, false, ◌&&◌, Option, none, some,
  List, arith, ◌==◌, ==_iff, if◌then◌else◌, count_where, find_one-update_where,
  find_one-update_where_other, find_one-holds, Option-cases, Bool-cases,
}
use saas_frontend.Base.Text.{Text}
use saas_frontend.Wallet.{ReferenceType, recharge, WalletTxn, post}
use saas_frontend.Wallet.Outcome.{credit_cases}
use saas_frontend.Recharge.Confirming.{Confirm, confirm_all, confirm_all-keeps, balance_of-keeps}
use saas_frontend.Recharge.Defs.{
  RechargeOrder, success, failed, is_success, is_failed, Till, order_by_id, pay_in, settle,
  mark_failed, update_order,
}

abbrev pub is_recharge : ReferenceType → Bool
is_recharge recharge = true
is_recharge _ = false

abbrev pub refers_to : ℕ → Option ℕ → Bool
refers_to order none = false
refers_to order (some id) = id == order

-- The entries of the ledger that pay in an order.
abbrev pub times_paid : ℕ → Till → ℕ
times_paid order t =
    count_where (λ (e : WalletTxn). is_recharge e.reference_type && refers_to order e.reference_id)
      t.book.ledger

abbrev pub paid_of : Option RechargeOrder → ℕ
paid_of none = 0
paid_of (some o) = if is_success o.status then 1 else 0

-- An order is paid in at most once, and only if its status says so.
abbrev pub IsPaidOnce : ℕ → Till → Type 0
IsPaidOnce order t = times_paid order t ≤ paid_of (order_by_id order t)

-- The payment of one order leaves every other where it was.
other_order :
    (order id : ℕ) (f : RechargeOrder → RechargeOrder) (t : Till)
    → ((y : RechargeOrder) → (f y).id ≡ y.id)
    → (id == order) ≡ false
    → order_by_id order (update_order id f t) ≡ order_by_id order t
other_order order id f t keep miss =
    find_one-update_where_other (λ (o : RechargeOrder). o.id == order)
      (λ (o : RechargeOrder). o.id == id) f t.orders (λ y. ap (λ n. n == order) (keep y))
      (λ y h. ground arith)

pub same_order :
    (id : ℕ) (f : RechargeOrder → RechargeOrder) (o : RechargeOrder) (t : Till)
    → ((y : RechargeOrder) → (f y).id ≡ y.id)
    → order_by_id id t ≡ some o
    → order_by_id id (update_order id f t) ≡ some (f o)
same_order id f o t keep found =
    find_one-update_where (λ (o : RechargeOrder). o.id == id) (λ (o : RechargeOrder). o.id == id) f
      t.orders {x = o} (λ y. ap (λ n. n == id) (keep y)) found
    ∙ rw (find_one-holds (λ (o : RechargeOrder). o.id == id) t.orders found) refl

pay_in-IsPaidOnce :
    (order tenant user : ℕ) (payment : Text) (now : ℕ) (o : RechargeOrder) (t : Till)
    → order_by_id o.id t ≡ some o
    → is_success o.status ≡ false
    → IsPaidOnce order t
    → IsPaidOnce order (pay_in tenant user payment now o t).1
unfolding post
pay_in-IsPaidOnce order tenant user payment now o t found unpaid once =
    elim (credit_cases tenant recharge (some o.id) (some user) t.book (some o.amount)) [
      | inr (e, refused) ↦ rw (pay_in, refused) once
      | inl p ↦
          rw (pay_in, p.result)
            (elim (Bool-cases (o.id == order)) [
              | inl hit ↦
                  let e : o.id ≡ order = (==_iff o.id order).0 hit in
                  ground (
                    arith,
                    hit,
                    e,
                    unpaid,
                    found,
                    once,
                    same_order o.id
                        (λ r. record r {
                          gateway_payment_id = some payment;
                          status = success;
                          completed_at = some now;
                        })
                        o t (λ y. refl) found,
                  )
              | inr miss ↦ ground (
                arith,
                miss,
                once,
                other_order order o.id
                    (λ r. record r {
                      gateway_payment_id = some payment;
                      status = success;
                      completed_at = some now;
                    })
                    t (λ y. refl) miss,
              )
            ])
    ]

settle-IsPaidOnce :
    (order id tenant user : ℕ) (payment : Text) (now : ℕ) (t : Till)
    → IsPaidOnce order t
    → IsPaidOnce order (settle id tenant user payment now t).1
unfolding settle
settle-IsPaidOnce order id tenant user payment now t once = elim (Option-cases (order_by_id id t)) [
  | inl gone ↦ rw (settle, gone) once
  | inr (o, found) ↦
      let e : o.id ≡ id =
        (==_iff o.id id).0 (find_one-holds (λ (r : RechargeOrder). r.id == id) t.orders found) in
      elim (Bool-cases (is_success o.status)) [
        | inl done ↦
            rw (settle, found, done) (balance_of-keeps (IsPaidOnce order) o.wallet_id t once)
        | inr unpaid ↦
            rw (settle, found, unpaid)
              (pay_in-IsPaidOnce order tenant user payment now o t
                (subst (λ n. order_by_id n t ≡ some o) (sym e) found) unpaid once)
      ]
]

-- A status that is not `success` may become `failed`: nothing was paid in.
mark_failed-IsPaidOnce :
    (order : ℕ) (o : RechargeOrder) (t : Till)
    → order_by_id o.id t ≡ some o
    → is_success o.status ≡ false
    → IsPaidOnce order t
    → IsPaidOnce order (mark_failed o t)
unfolding mark_failed
mark_failed-IsPaidOnce order o t found unpaid once = elim (Bool-cases (is_failed o.status)) [
  | inl marked ↦ rw (mark_failed, marked) once
  | inr unmarked ↦
      rw (mark_failed, unmarked)
        (elim (Bool-cases (o.id == order)) [
          | inl hit ↦
              let e : o.id ≡ order = (==_iff o.id order).0 hit in
              ground (arith, e, unpaid, found, once)
          | inr miss ↦ ground (
            arith,
            miss,
            once,
            other_order order o.id (λ r. record r { status = failed }) t (λ y. refl) miss,
          )
        ])
]

-- Where an order was paid in at most once, and only if its status is `success`, this stays so after
-- any verifications and webhooks that come one after another, forged and repeated ones included.
pub confirm_all-IsPaidOnce :
    (order : ℕ) (cs : List Confirm) (t : Till)
    → IsPaidOnce order t
    → IsPaidOnce order (confirm_all cs t)
confirm_all-IsPaidOnce order =
    confirm_all-keeps (IsPaidOnce order) (settle-IsPaidOnce order) (mark_failed-IsPaidOnce order)
