-- ===== src/Returns/Detection.antt =====
-- What a recorded scan tells of a delivery that failed, of a return, or of a delivery.
use saas_frontend.Base.{
  ℕ, ◌+◌, ◌*◌, Bool, true, false, Option, none, some, ◌∷◌, pure, modify, ◌>>=◌, ◌>>◌, ◌==◌, ltb,
  if◌then◌else◌, find_one,
}
use saas_frontend.Base.Text.{Text}
use saas_frontend.Status.Shipments.{delivered, same_status, system}
use saas_frontend.Shipping.{Shipment}
use saas_frontend.Tracking.{TrackingEvent, ScanStatus, known, unknown}
use saas_frontend.Returns.Words.{
  ReasonCode, RtoStatus, rto_initiated, rto_delivered, scan_word, detect_ndr_reason,
  detect_rto_status,
}
use saas_frontend.Returns.Defs.{
  NdrStatus, NdrEvent, opened, resolved_delivered, resolved_rto, RtoRecord, auto_ndr_threshold,
  courier_initiated, threshold_surpassed, reverse_logistics, ndr_created, rto_begun, Returns, Call,
  Config, own_transaction, shipment_of, open_ndr, rto_of, update_ndr, update_rto, emit,
  end_shipment, create_rto,
}

-- `resolveOpenNdr`
abbrev pub resolve_open_ndr : ℕ → NdrStatus → Returns → Returns
resolve_open_ndr shipment status t = elim (open_ndr shipment t) [
  | none ↦ t
  | some ndr ↦ update_ndr ndr.id (λ r. record r { status = status }) t
]

-- `event.remark || event.status`
abbrev pub raw_reason_of : ScanStatus → Option Text → Text
raw_reason_of status (some (c ∷ remark)) = c ∷ remark
raw_reason_of status _ = scan_word status

-- The attempt that is more than the threshold: the delivery is given up.
abbrev pub give_up : Config → TrackingEvent → Shipment → NdrEvent → Call (Unit {0})
give_up c event sh ndr = do
  modify (
      update_ndr ndr.id (λ r. record r {
        attempt_number = ndr.attempt_number + 1;
        status = resolved_rto;
        tracking_event_id = some event.id;
      }))
  id ←
      create_rto sh.tenant_id sh.id (threshold_surpassed (c.threshold sh.tenant_id))
        auto_ndr_threshold rto_initiated
  modify (end_shipment sh system)

-- The row of a first attempt
abbrev pub new_ndr : Config → TrackingEvent → Shipment → ReasonCode → ℕ → NdrEvent
new_ndr c event sh reason id = record {
  id = id;
  tenant_id = sh.tenant_id;
  shipment_id = sh.id;
  tracking_event_id = some event.id;
  reason_code = reason;
  raw_reason = raw_reason_of event.scan.status event.scan.remark;
  attempt_number = 1;
  status = opened;
  sla_due_at = c.now + c.sla_hours * 3600;
}

-- `NdrEvent.create`, and the hook `onNdrCreated`
abbrev pub create_ndr : Config → TrackingEvent → Shipment → ReasonCode → Returns → Returns
create_ndr c event sh reason t =
    emit (ndr_created sh.tenant_id sh.awb_number reason)
      (record t { ndrs = new_ndr c event sh reason t.next_id ∷ t.ndrs; next_id = t.next_id + 1 })

abbrev pub count_attempt : Config → TrackingEvent → Shipment → NdrEvent → Call (Unit {0})
count_attempt c event sh ndr =
    if ltb (c.threshold sh.tenant_id) (ndr.attempt_number + 1)
    then give_up c event sh ndr
    else modify (
        update_ndr ndr.id (λ r. record r {
          attempt_number = ndr.attempt_number + 1;
          tracking_event_id = some event.id;
        }))

-- `handleNdrEvent`, with the open event that it has read, without a lock
abbrev pub record_ndr :
    Config → TrackingEvent → Shipment → ReasonCode → Option NdrEvent → Call (Unit {0})
record_ndr c event sh reason (some ndr) t = count_attempt c event sh ndr t
record_ndr c event sh reason none t = modify (create_ndr c event sh reason) t

-- `handleNdrEvent`
abbrev pub handle_ndr_event : Config → TrackingEvent → Shipment → ReasonCode → Call (Unit {0})
handle_ndr_event c event sh reason t = record_ndr c event sh reason (open_ndr sh.id t) t

abbrev pub is_returned : RtoStatus → Bool
is_returned rto_delivered = true
is_returned _ = false

-- `received_at_warehouse_at`, which a return that has arrived gets.
abbrev pub received : ℕ → RtoStatus → RtoRecord → RtoRecord
received now status r =
    if is_returned status
    then record r { status = status; received_at_warehouse_at = some now }
    else record r { status = status }

abbrev pub begin_rto : TrackingEvent → Shipment → RtoStatus → Call (Unit {0})
begin_rto event sh status = do
  id ← create_rto sh.tenant_id sh.id (reverse_logistics event.scan.status) courier_initiated status
  modify (emit (rto_begun sh.tenant_id sh.awb_number courier_initiated))

abbrev pub record_rto : Config → TrackingEvent → Shipment → RtoStatus → Call (Unit {0})
record_rto c event sh status t = elim (rto_of sh.id t) [
  | some rto ↦ modify (update_rto rto.id (received c.now status)) t
  | none ↦ begin_rto event sh status t
]

abbrev pub finish_rto : Shipment → Returns → Returns
finish_rto sh t = end_shipment sh system (resolve_open_ndr sh.id resolved_rto t)

-- `handleRtoEvent`
abbrev pub handle_rto_event : Config → TrackingEvent → Shipment → RtoStatus → Call (Unit {0})
handle_rto_event c event sh status = do
  record_rto c event sh status
  if is_returned status then modify (finish_rto sh) else pure tt

-- `event.status === 'delivered'`
abbrev pub is_delivered : ScanStatus → Bool
is_delivered (known status) = same_status status delivered
is_delivered (unknown word) = false

abbrev pub handle_other : TrackingEvent → Shipment → Call (Unit {0})
handle_other event sh =
    if is_delivered event.scan.status
    then modify (resolve_open_ndr sh.id resolved_delivered)
    else pure tt

abbrev pub handle_event : Config → TrackingEvent → Shipment → Call (Unit {0})
handle_event c event sh = elim (detect_rto_status event.scan.status event.scan.remark) [
  | some status ↦ handle_rto_event c event sh status
  | none ↦ elim (detect_ndr_reason event.scan.status event.scan.remark) [
    | some reason ↦ handle_ndr_event c event sh reason
    | none ↦ handle_other event sh
  ]
]

abbrev pub event_of : ℕ → Returns → Option TrackingEvent
event_of id t = find_one (λ e. e.id == id) t.feed.events

abbrev pub on_shipment : Config → TrackingEvent → Option Shipment → Call (Unit {0})
on_shipment c event none = pure tt
on_shipment c event (some sh) = own_transaction (handle_event c event sh)

abbrev pub on_event : Config → Option TrackingEvent → Call (Unit {0})
on_event c none t = pure tt t
on_event c (some event) t = on_shipment c event (shipment_of event.shipment_id t) t

-- `detectAndProcessNdrOrRto`
unfoldable pub detect_and_process_ndr_or_rto : Config → ℕ → Call (Unit {0})
detect_and_process_ndr_or_rto c id t = on_event c (event_of id t) t
