-- ===== src/Returns/Defs.antt =====
-- The rows of failed deliveries and returns, and what detection and actions share. Times are in
-- seconds.
use saas_frontend.Base.{
  is_some, ℕ, ◌+◌, Bool, true, false, ◌&&◌, Option, none, some, List, ◌∷◌, Result, ok, err, Action,
  pure, gets, throw_if, modify, ◌>>=◌, ◌>>◌, ◌==◌, if◌then◌else◌, find_one, update_where,
}
use saas_frontend.Base.Text.{Text}
use saas_frontend.Status.Shipments.{same_status, cancelled, Source}
use saas_frontend.Shipping.{Shipment}
use saas_frontend.Tracking.{Feed, ScanStatus, shipment_by_id}
use saas_frontend.Returns.Words.{ReasonCode, RtoStatus}

-- `ENUM` of the column `ndr_events.status`
pub data NdrStatus : Type 0 where
  opened action_taken resolved_delivered resolved_rto : NdrStatus

pub record NdrEvent : Type 0 where
  pub id : ℕ
  pub tenant_id : ℕ
  pub shipment_id : ℕ
  pub tracking_event_id : Option ℕ
  pub reason_code : ReasonCode
  pub raw_reason : Text
  pub attempt_number : ℕ
  pub status : NdrStatus
  pub sla_due_at : ℕ

-- `ENUM` of the column `action_type`
pub data ActionType : Type 0 where
  reattempt update_address update_phone mark_rto call_customer no_action : ActionType

pub record NdrAction : Type 0 where
  pub ndr_event_id : ℕ
  pub action_type : ActionType
  pub notes : Option Text
  pub updated_address_line1 : Option Text
  pub updated_phone : Option Text
  pub performed_by : ℕ

-- `ENUM` of the column `initiated_by`
pub data InitiatedBy : Type 0 where
  by_hand auto_ndr_threshold courier_initiated : InitiatedBy

-- The texts of the column `initiated_reason`, each with what it names.
pub data InitiatedReason : Type 0 where
  threshold_surpassed : ℕ → InitiatedReason
  reverse_logistics : ScanStatus → InitiatedReason
  marked : Option Text → InitiatedReason

pub record RtoRecord : Type 0 where
  pub id : ℕ
  pub tenant_id : ℕ
  pub shipment_id : ℕ
  pub initiated_reason : InitiatedReason
  pub initiated_by : InitiatedBy
  pub status : RtoStatus
  pub rto_awb_number : Option Text
  pub received_at_warehouse_at : Option ℕ

-- The events of the bus, with the tenant and the number of the shipment, and the request to a courier.
pub data ReturnsEffect : Type 0 where
  ndr_created : ℕ → Option Text → ReasonCode → ReturnsEffect
  ndr_action_taken : ℕ → Option Text → ActionType → ReturnsEffect
  rto_begun : ℕ → Option Text → InitiatedBy → ReturnsEffect
  reattempt_requested : ℕ → Option Text → ActionType → ReturnsEffect

pub record Returns : Type 0 where
  pub feed : Feed
  pub ndrs : List NdrEvent
  pub actions : List NdrAction
  pub rtos : List RtoRecord
  pub next_id : ℕ
  pub effects : List ReturnsEffect

-- `missing_shipment` is the failure to read a column of a shipment that is gone.
pub data Error : Type 0 where
  ndr_not_found ndr_already_resolved address_required phone_required : Error
  rto_not_found duplicate_rto missing_shipment : Error

abbrev pub Call : Type 0 → Type 0
Call A = Action Returns Error A

-- The clock, the hours of the environment, and the whole part of the number that the settings of a
-- tenant give as `ndr_auto_rto_threshold`.
pub record Config : Type 0 where
  pub now : ℕ
  pub sla_hours : ℕ
  pub threshold : ℕ → ℕ

-- A call with a transaction of its own: no call that throws has had an effect outside before.
abbrev pub close : {A : Type 0} → Returns → Result Error A × Returns → Result Error A × Returns
close t (ok a, t') = (ok a, t')
close t (err e, t') = (err e, t)

abbrev pub own_transaction : {A : Type 0} → Call A → Call A
own_transaction m t = close t (m t)

abbrev pub shipment_of : ℕ → Returns → Option Shipment
shipment_of id t = shipment_by_id id t.feed

abbrev pub is_open : NdrStatus → Bool
is_open opened = true
is_open _ = false

-- `where: { shipment_id, status: 'open' }`
abbrev pub is_open_for : ℕ → NdrEvent → Bool
is_open_for shipment r = (r.shipment_id == shipment) && is_open r.status

abbrev pub open_ndr : ℕ → Returns → Option NdrEvent
open_ndr shipment t = find_one (is_open_for shipment) t.ndrs

abbrev pub is_for : ℕ → RtoRecord → Bool
is_for shipment r = r.shipment_id == shipment

abbrev pub rto_of : ℕ → Returns → Option RtoRecord
rto_of shipment t = find_one (is_for shipment) t.rtos

-- `ndr.update(values)`
abbrev pub update_ndr : ℕ → (NdrEvent → NdrEvent) → Returns → Returns
update_ndr id f t = record t { ndrs = update_where (λ r. r.id == id) f t.ndrs }

-- `rto.update(values)`
abbrev pub update_rto : ℕ → (RtoRecord → RtoRecord) → Returns → Returns
update_rto id f t = record t { rtos = update_where (λ r. r.id == id) f t.rtos }

abbrev pub emit : ReturnsEffect → Returns → Returns
emit e t = record t { effects = e ∷ t.effects }

-- A column of a shipment's status, written past the table of transitions.
abbrev pub set_cancelled : Shipment → Returns → Returns
set_cancelled sh t = record t {
  feed = record t.feed {
    shipments =
        update_where (λ s. s.id == sh.id) (λ s. record s { status = cancelled }) t.feed.shipments;
  };
}

-- `logHistory(shipment.id, oldStatus, 'cancelled', source, ...)`
abbrev pub log_cancelled : Shipment → Source → Returns → Returns
log_cancelled sh source t = record t {
  feed = record t.feed {
    history =
        record {
          shipment_id = sh.id;
          old_status = some sh.status;
          new_status = cancelled;
          source = source;
        }
        ∷ t.feed.history;
  };
}

-- `if (oldStatus !== 'cancelled')` the shipment is cancelled, and the change logged.
abbrev pub end_shipment : Shipment → Source → Returns → Returns
end_shipment sh source t =
    if same_status sh.status cancelled then t else log_cancelled sh source (set_cancelled sh t)

abbrev pub new_rto : ℕ → ℕ → InitiatedReason → InitiatedBy → RtoStatus → ℕ → RtoRecord
new_rto tenant shipment reason by status id = record {
  id = id;
  tenant_id = tenant;
  shipment_id = shipment;
  initiated_reason = reason;
  initiated_by = by;
  status = status;
  rto_awb_number = none;
  received_at_warehouse_at = none;
}

abbrev pub insert_rto : (ℕ → RtoRecord) → Returns → Returns
insert_rto row t = record t { rtos = row t.next_id ∷ t.rtos; next_id = t.next_id + 1 }

-- `RtoRecord.create`: the column `shipment_id` is unique.
abbrev pub create_rto : ℕ → ℕ → InitiatedReason → InitiatedBy → RtoStatus → Call ℕ
create_rto tenant shipment reason by status = do
  throw_if (is_some (← gets (rto_of shipment))) duplicate_rto
  id ← gets (λ t. t.next_id)
  modify (insert_rto (new_rto tenant shipment reason by status))
  pure id
