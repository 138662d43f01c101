-- ===== src/Dispute/Defs.antt =====
-- The disputes, `fileDispute` and `resolveDispute`. The service passes fields that the model does not
-- have, and leaves out some that the model requires. Times are in seconds, weights in grams, and the
-- rate is in paise for a gram.
use saas_frontend.Base.{
  is_some, ℕ, ◌+◌, ◌*◌, Bool, true, ◌&&◌, not, Option, none, some, List, ◌∷◌, Result, ok, err,
  Action, pure, gets, or_throw, throw_if, modify, ◌>>=◌, ◌>>◌, ◌==◌, ltb, if◌then◌else◌, find_one,
  update_where,
}
use saas_frontend.Base.Int.{ℤ, pos, ◌-ℤ◌, ltb_ℤ}
use saas_frontend.Base.Text.{Text, codes, text_eq}
use saas_frontend.Wallet
use saas_frontend.Wallet.{Book, weight_dispute_reversal, credit, own_transaction}

-- The columns of a shipment that the service reads.
pub record BookedShipment : Type 0 where
  pub id : ℕ
  pub tenant_id : ℕ
  pub created_at : ℕ

-- `ENUM` of the column `status`
pub data DisputeStatus : Type 0 where
  opened under_review accepted rejected reversed : DisputeStatus

pub record Dispute : Type 0 where
  pub id : ℕ
  pub seller_id : ℕ
  pub shipment_id : ℕ
  pub awb : Text
  pub declared_weight : ℕ
  pub courier_weight : ℕ
  pub disputed_charge : ℕ
  pub status : DisputeStatus
  pub resolved_at : Option ℕ
  pub resolved_by : Option ℕ

pub record Disputes : Type 0 where
  pub book : Book
  pub shipments : List BookedShipment
  pub disputes : List Dispute
  pub next_id : ℕ
  pub resolved_events : List ℕ

-- `not_null_violation` is the model's refusal of a row without a required column, and
-- `already_resolved` stands for the message with the status that the dispute has.
pub data Error : Type 0 where
  shipment_not_found window_expired dispute_exists not_null_violation : Error
  dispute_not_found : Error
  already_resolved : DisputeStatus → Error
  wallet_error : Wallet.Error → Error

abbrev pub Call : Type 0 → Type 0
Call A = Action Disputes Error A

-- `DISPUTE_WINDOW_DAYS`, in seconds
abbrev pub window : ℕ → ℕ
window days = days * 86400

-- The columns without a default that may not be null.
pub record Columns : Type 0 where
  pub awb : Option Text
  pub declared_weight : Option ℕ
  pub courier_weight : Option ℕ
  pub disputed_charge : Option ℕ

-- What the service passes of them: it has other names for the weights.
abbrev pub passed : Columns
passed = record {
  awb = none;
  declared_weight = none;
  courier_weight = none;
  disputed_charge = none;
}

-- `WeightDiscrepancyDispute.create`
abbrev pub create : ℕ → ℕ → Columns → Call ℕ
create tenant shipment c = do
  awb ← or_throw c.awb not_null_violation
  declared ← or_throw c.declared_weight not_null_violation
  courier ← or_throw c.courier_weight not_null_violation
  charge ← or_throw c.disputed_charge not_null_violation
  id ← gets (λ t. t.next_id)
  modify (λ t. record t {
    disputes =
        record {
          id = id;
          seller_id = tenant;
          shipment_id = shipment;
          awb = awb;
          declared_weight = declared;
          courier_weight = courier;
          disputed_charge = charge;
          status = opened;
          resolved_at = none;
          resolved_by = none;
        }
        ∷ t.disputes;
    next_id = t.next_id + 1;
  })
  pure id

abbrev pub dispute_for : ℕ → Disputes → Option Dispute
dispute_for shipment t = find_one (λ d. d.shipment_id == shipment) t.disputes

-- `fileDispute`
unfoldable pub file_dispute : ℕ → ℕ → ℕ → ℕ → Call ℕ
file_dispute now days tenant shipment = do
  sh ←
      or_throw
        (← gets (λ t. find_one (λ s. (s.id == shipment) && (s.tenant_id == tenant)) t.shipments))
        shipment_not_found
  throw_if (ltb (sh.created_at + window days) now) window_expired
  throw_if (is_some (← gets (dispute_for shipment))) dispute_exists
  create tenant shipment passed

abbrev pub status_text : DisputeStatus → Text
status_text opened = codes "open"
status_text under_review = codes "under_review"
status_text accepted = codes "accepted"
status_text rejected = codes "rejected"
status_text reversed = codes "reversed"

-- `dispute.carrier_charged_weight_kg`, which is no column
abbrev pub charged_weight : Dispute → Option ℤ
charged_weight d = none

-- `Math.max(0, (charged - approved) * rate)`, if it is more than 0. It is `NaN` without a weight.
abbrev pub credit_due : (ℤ → ℤ) → Option ℤ → ℤ → Option ℤ
credit_due at_rate none approved = none
credit_due at_rate (some charged) approved =
    let due = at_rate (charged -ℤ approved) in if ltb_ℤ (pos 0) due then some due else none

abbrev pub is_pending : DisputeStatus → Bool
is_pending s = text_eq (status_text s) (codes "pending")

abbrev pub credited : Result Wallet.Error ℤ × Book → Call (Unit {0})
credited (ok balance, b) t = (ok tt, record t { book = b })
credited (err e, b) t = (err (wallet_error e), record t { book = b })

abbrev pub issue : ℕ → Dispute → Option ℤ → Call (Unit {0})
issue admin d none t = (ok tt, t)
issue admin d (some due) t =
    credited
      (own_transaction
        (credit d.seller_id (some due) weight_dispute_reversal (some d.id) (some admin)) t.book)
      t

-- `resolution === 'accepted'`, and the weight that is approved, if there is one.
abbrev pub reverse_charge : (ℤ → ℤ) → ℕ → Dispute → Bool → Option ℤ → Call (Unit {0})
reverse_charge at_rate admin d true (some approved) =
    issue admin d (credit_due at_rate (charged_weight d) approved)
reverse_charge at_rate admin d _ _ = pure tt

-- `resolveDispute`
unfoldable pub resolve_dispute : ℕ → (ℤ → ℤ) → ℕ → ℕ → Bool → Option ℤ → Call (Unit {0})
resolve_dispute now at_rate id admin is_accepted approved = do
  d ← or_throw (← gets (λ t. find_one (λ d. d.id == id) t.disputes)) dispute_not_found
  throw_if (not (is_pending d.status)) (already_resolved d.status)
  reverse_charge at_rate admin d is_accepted approved
  modify (λ t. record t {
    disputes =
        update_where (λ d. d.id == id)
          (λ d. record d {
            status = if is_accepted then accepted else rejected;
            resolved_at = some now;
            resolved_by = some admin;
          })
          t.disputes;
    resolved_events = id ∷ t.resolved_events;
  })
