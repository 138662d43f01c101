-- ===== src/Recharge/Confirming.antt =====
-- The calls that can pay in an order, and what each of them comes down to.
use saas_frontend.Base.{
  ℕ, ◌≡◌, sym, subst, inl, inr, false, none, some, List, [], ◌∷◌, Result, ok, err, ◌==◌, ==_iff,
  find_one, find_one-holds, Option-cases, Bool-cases,
}
use saas_frontend.Base.Int.{ℤ}
use saas_frontend.Base.Text.{Text}
use saas_frontend.Wallet.{WalletRow}
use saas_frontend.Recharge.Defs.{
  RechargeOrder, is_success, Till, Error, Gateway, order_by_id, settle, mark_failed, balance_of,
  verify_recharge_payment, handle_gateway_webhook, GatewayEvent, payment_captured, other_event,
  on_event, on_captured, answer, order_by_gateway,
}

-- The calls that can pay in an order, each with the gateway's answers of its time.
pub data Confirm : Type 0 where
  verifies : Gateway → ℕ → ℕ → ℕ → Text → Text → Confirm
  hooks : Gateway → Text → Text → Confirm

abbrev pub confirm : Confirm → Till → Till
confirm (verifies gateway tenant user order payment signature) t =
    (verify_recharge_payment gateway tenant user order payment signature t).1
confirm (hooks gateway signature body) t = (handle_gateway_webhook gateway signature body t).1

abbrev pub confirm_all : List Confirm → Till → Till
confirm_all [] t = t
confirm_all (c ∷ cs) t = confirm_all cs (confirm c t)

pub balance_of-keeps : (P : Till → Type 0) (wallet : ℕ) (t : Till) → P t → P (balance_of wallet t).1
balance_of-keeps P wallet t p =
    elim (Option-cases (find_one (λ (w : WalletRow). w.id == wallet) t.book.wallets)) [
      | inl gone ↦ rw (balance_of, gone) p
      | inr (w, found) ↦ rw (balance_of, found) p
    ]

-- What a settlement and a mark keep, each call keeps.
module _ (P : Till → Type 0)
    (settles : (id tenant user : ℕ) (payment : Text) (now : ℕ) (t : Till)
      → P t
      → P (settle id tenant user payment now t).1)
    (marks : (o : RechargeOrder) (t : Till)
      → order_by_id o.id t ≡ some o
      → is_success o.status ≡ false
      → P t
      → P (mark_failed o t)) where
  verify-keeps :
      (gateway : Gateway) (tenant user id : ℕ) (payment signature : Text) (t : Till)
      → P t
      → P (verify_recharge_payment gateway tenant user id payment signature t).1
  unfolding verify_recharge_payment
  verify-keeps gateway tenant user id payment signature t once =
      elim (Option-cases (order_by_id id t)) [
        | inl gone ↦ rw (verify_recharge_payment, gone) once
        | inr (o, found) ↦ elim (Bool-cases (o.tenant_id == tenant)) [
          | inr foreign ↦ rw (verify_recharge_payment, found, foreign) once
          | inl own ↦ elim (Bool-cases (is_success o.status)) [
            | inl done ↦
                rw (verify_recharge_payment, found, own, done)
                  (balance_of-keeps P o.wallet_id t once)
            | inr unpaid ↦
                elim (Bool-cases (gateway.verifies_payment o.gateway_order_id payment signature)) [
                  | inl valid ↦
                      rw (verify_recharge_payment, found, own, unpaid, valid)
                        (settles o.id tenant user payment gateway.now t once)
                  | inr forged ↦
                      rw (verify_recharge_payment, found, own, unpaid, forged)
                        (marks o t
                          (subst (λ n. order_by_id n t ≡ some o)
                            (sym (
                              (==_iff o.id id).0 (
                                find_one-holds (λ (r : RechargeOrder). r.id == id) t.orders found)))
                            found)
                          unpaid once)
                ]
          ]
        ]
      ]

  answer-keeps : (r : Result Error ℤ × Till) → P r.1 → P (answer r).1
  answer-keeps (ok balance, t) once = once
  answer-keeps (err e, t) once = once

  on_captured-keeps :
      (gateway : Gateway) (g payment : Text) (t : Till)
      → P t
      → P (on_captured gateway g payment t).1
  on_captured-keeps gateway g payment t once = elim (Option-cases (order_by_gateway g t)) [
    | inl gone ↦ rw (on_captured, gone) once
    | inr (o, found) ↦ elim (Bool-cases (is_success o.status)) [
      | inl done ↦ rw (on_captured, found, done) once
      | inr unpaid ↦
          rw (on_captured, found, unpaid)
            (answer-keeps (settle o.id o.tenant_id o.initiated_by payment gateway.now t)
              (settles o.id o.tenant_id o.initiated_by payment gateway.now t once))
    ]
  ]

  on_event-keeps :
      (gateway : Gateway) (event : GatewayEvent) (t : Till) → P t → P (on_event gateway event t).1
  on_event-keeps gateway other_event t once = once
  on_event-keeps gateway (payment_captured none payment) t once = once
  on_event-keeps gateway (payment_captured (some []) payment) t once = once
  on_event-keeps gateway (payment_captured (some (c ∷ g)) payment) t once =
      on_captured-keeps gateway (c ∷ g) payment t once

  webhook-keeps :
      (gateway : Gateway) (signature body : Text) (t : Till)
      → P t
      → P (handle_gateway_webhook gateway signature body t).1
  unfolding handle_gateway_webhook
  webhook-keeps gateway signature body t once =
      elim (Bool-cases (gateway.verifies_webhook body signature)) [
        | inr forged ↦ rw (handle_gateway_webhook, forged) once
        | inl valid ↦ elim (Option-cases (gateway.parse body)) [
          | inl broken ↦ rw (handle_gateway_webhook, valid, broken) once
          | inr (event, parsed) ↦
              rw (handle_gateway_webhook, valid, parsed) (on_event-keeps gateway event t once)
        ]
      ]

  pub confirm-keeps : (c : Confirm) (t : Till) → P t → P (confirm c t)
  confirm-keeps (verifies gateway tenant user id payment signature) t p =
      verify-keeps gateway tenant user id payment signature t p
  confirm-keeps (hooks gateway signature body) t p = webhook-keeps gateway signature body t p

  pub confirm_all-keeps : (cs : List Confirm) (t : Till) → P t → P (confirm_all cs t)
  confirm_all-keeps [] t p = p
  confirm_all-keeps (c ∷ cs) t p = confirm_all-keeps cs (confirm c t) (confirm-keeps c t p)
