-- ===== src/Recharge/Defs.antt =====
-- The orders of recharges, and the three operations of the service.
use saas_frontend.Base.{
  ℕ, ◌+◌, Bool, true, false, ◌||◌, Option, none, some, List, [], ◌∷◌, Result, ok, err, ◌==◌,
  if◌then◌else◌, find_one, update_where,
}
use saas_frontend.Base.Int.{ℤ, pos, ltb_ℤ}
use saas_frontend.Base.Text.{Text, codes, text_eq}
use saas_frontend.Wallet
use saas_frontend.Wallet.{Book, WalletRow, wallet_of, recharge, credit}

-- `ENUM` of the column `status`
pub data RechargeStatus : Type 0 where
  created pending success failed cancelled : RechargeStatus

pub record RechargeOrder : Type 0 where
  pub id : ℕ
  pub tenant_id : ℕ
  pub wallet_id : ℕ
  pub amount : ℤ
  pub gateway_order_id : Text
  pub gateway_payment_id : Option Text
  pub status : RechargeStatus
  pub initiated_by : ℕ
  pub completed_at : Option ℕ

-- `wallet_recharge_initiated`, with the user, the order, the amount and the gateway's order
pub data AuditRow : Type 0 where
  recharge_initiated : ℕ → ℕ → ℕ → ℤ → Text → AuditRow

pub record Till : Type 0 where
  pub book : Book
  pub orders : List RechargeOrder
  pub next_id : ℕ
  pub audit : List AuditRow

-- The `TypeError` of a row that is gone is `row_gone`; `invalid_body` is that of `JSON.parse`.
pub data Error : Type 0 where
  amount_out_of_range wallet_not_found duplicate_gateway_order gateway_failed : Error
  recharge_order_not_found payment_signature_invalid row_gone invalid_body : Error
  wallet_error : Wallet.Error → Error

-- What the body of a webhook says: a payment of an order, if it names one, or anything else.
pub data GatewayEvent : Type 0 where
  payment_captured : Option Text → Text → GatewayEvent
  other_event : GatewayEvent

-- The gateway, the parser of its webhooks, and the clock.
pub record Gateway : Type 0 where
  pub now : ℕ
  pub create_order : ℤ → ℕ → Option Text
  pub verifies_payment : Text → Text → Text → Bool
  pub verifies_webhook : Text → Text → Bool
  pub parse : Text → Option GatewayEvent

abbrev pub is_success : RechargeStatus → Bool
is_success success = true
is_success _ = false

abbrev pub is_failed : RechargeStatus → Bool
is_failed failed = true
is_failed _ = false

abbrev pub order_by_id : ℕ → Till → Option RechargeOrder
order_by_id id t = find_one (λ o. o.id == id) t.orders

abbrev pub of_tenant : ℕ → Option RechargeOrder → Option RechargeOrder
of_tenant tenant none = none
of_tenant tenant (some o) = if o.tenant_id == tenant then some o else none

-- `where: { id, tenant_id }`, where `id` is the primary key
abbrev pub order_of : ℕ → ℕ → Till → Option RechargeOrder
order_of order tenant t = of_tenant tenant (order_by_id order t)

abbrev pub order_by_gateway : Text → Till → Option RechargeOrder
order_by_gateway g t = find_one (λ o. text_eq o.gateway_order_id g) t.orders

abbrev pub update_order : ℕ → (RechargeOrder → RechargeOrder) → Till → Till
update_order id f t = record t { orders = update_where (λ o. o.id == id) f t.orders }

-- The id that an order has while the gateway has not given it one.
abbrev pub pending_initiation : Text
pending_initiation = codes "pending_initiation"

-- Steps 1 to 4 of `initiateRecharge`. `gateway_order_id` is unique.
abbrev pub open_order : Gateway → ℕ → ℕ → ℤ → WalletRow → Till → Result Error ℕ × Till
open_order gateway tenant user amt wallet t = elim (order_by_gateway pending_initiation t) [
  | some other ↦ (err duplicate_gateway_order, t)
  | none ↦
      let id = t.next_id in
      let t' : Till = record t {
        orders =
            record {
              id = id;
              tenant_id = tenant;
              wallet_id = wallet.id;
              amount = amt;
              gateway_order_id = pending_initiation;
              gateway_payment_id = none;
              status = created;
              initiated_by = user;
              completed_at = none;
            }
            ∷ t.orders;
        next_id = t.next_id + 1;
      } in
      elim (gateway.create_order amt id) [
        | none ↦ (err gateway_failed, t')
        | some g ↦ (
          ok id,
          record (update_order id (λ o. record o { gateway_order_id = g; status = pending }) t') {
            audit = recharge_initiated tenant user id amt g ∷ t.audit;
          },
        )
      ]
]

-- `initiateRecharge`: from 100 to 500000 rupees.
unfoldable pub initiate_recharge : Gateway → ℕ → ℕ → Option ℤ → Till → Result Error ℕ × Till
initiate_recharge gateway tenant user none t = (err amount_out_of_range, t)
initiate_recharge gateway tenant user (some amt) t =
    if ltb_ℤ amt (pos 10000) || ltb_ℤ (pos 50000000) amt
    then (err amount_out_of_range, t)
    else elim (wallet_of tenant t.book) [
      | none ↦ (err wallet_not_found, t)
      | some wallet ↦ open_order gateway tenant user amt wallet t
    ]

-- The balance of the wallet of an order that was paid before.
abbrev pub balance_of : ℕ → Till → Result Error ℤ × Till
balance_of wallet t = elim (find_one (λ w. w.id == wallet) t.book.wallets) [
  | none ↦ (err row_gone, t)
  | some w ↦ (ok w.balance, t)
]

-- The credit and the order's status, in one transaction; audit rows outlive its rollback.
abbrev pub pay_in : ℕ → ℕ → Text → ℕ → RechargeOrder → Till → Result Error ℤ × Till
pay_in tenant user payment now o t =
    let (r, b) = credit tenant (some o.amount) recharge (some o.id) (some user) t.book in
    elim r [
      | err e ↦ (err (wallet_error e), record t { book = record t.book { effects = b.effects } })
      | ok balance ↦ (
        ok balance,
        update_order o.id
            (λ r. record r {
              gateway_payment_id = some payment;
              status = success;
              completed_at = some now;
            })
            (record t { book = b }),
      )
    ]

-- The transaction that reads the order anew under its lock: step 3 of `verifyRechargePayment`, and
-- the same for a webhook.
unfoldable pub settle : ℕ → ℕ → ℕ → Text → ℕ → Till → Result Error ℤ × Till
settle order tenant user payment now t = elim (order_by_id order t) [
  | none ↦ (err row_gone, t)
  | some o ↦
      if is_success o.status then balance_of o.wallet_id t else pay_in tenant user payment now o t
]

-- `order.update({ status: 'failed' })`, on the order that was read without a lock: only a column that
-- differs from what was read is written.
unfoldable pub mark_failed : RechargeOrder → Till → Till
mark_failed order t =
    if is_failed order.status
    then t
    else update_order order.id (λ o. record o { status = failed }) t

-- `verifyRechargePayment`
unfoldable pub verify_recharge_payment :
    Gateway → ℕ → ℕ → ℕ → Text → Text → Till → Result Error ℤ × Till
unfolding settle mark_failed
verify_recharge_payment gateway tenant user order payment signature t =
    elim (order_of order tenant t) [
      | none ↦ (err recharge_order_not_found, t)
      | some o ↦
          if is_success o.status
          then balance_of o.wallet_id t
          else (if gateway.verifies_payment o.gateway_order_id payment signature
              then settle o.id tenant user payment gateway.now t
              else (err payment_signature_invalid, mark_failed o t))
    ]

-- A webhook answers success, or the error of the transaction.
abbrev pub answer : Result Error ℤ × Till → Result Error (Unit {0}) × Till
answer (ok balance, t) = (ok tt, t)
answer (err e, t) = (err e, t)

abbrev pub on_captured : Gateway → Text → Text → Till → Result Error (Unit {0}) × Till
on_captured gateway g payment t = elim (order_by_gateway g t) [
  | none ↦ (err recharge_order_not_found, t)
  | some o ↦
      if is_success o.status
      then (ok tt, t)
      else answer (settle o.id o.tenant_id o.initiated_by payment gateway.now t)
]

abbrev pub on_event : Gateway → GatewayEvent → Till → Result Error (Unit {0}) × Till
on_event gateway (payment_captured none payment) t = (ok tt, t)
on_event gateway (payment_captured (some []) payment) t = (ok tt, t)
on_event gateway (payment_captured (some (c ∷ g)) payment) t = on_captured gateway (c ∷ g) payment t
on_event gateway other_event t = (ok tt, t)

-- `handleGatewayWebhook`
unfoldable pub handle_gateway_webhook :
    Gateway → Text → Text → Till → Result Error (Unit {0}) × Till
unfolding settle
handle_gateway_webhook gateway signature body t =
    if gateway.verifies_webhook body signature
    then elim (gateway.parse body) [
      | none ↦ (err invalid_body, t)
      | some event ↦ on_event gateway event t
    ]
    else (err payment_signature_invalid, t)
