-- ===== src/Tracking/Defs.antt =====
-- The rows of scans, and the operations of the service.
use saas_frontend.Base.{
  ℕ, ◌+◌, ◌*◌, Bool, true, false, ◌&&◌, ◌||◌, not, Option, none, some, List, [], ◌∷◌, ok, err, ◌==◌,
  leb, ltb, if◌then◌else◌, find_one, update_where, count_where, contains,
}
use saas_frontend.Base.Text.{Text, text_eq}
use saas_frontend.Status.Shipments.{
  ShipmentStatus, same_status, validate_transition, awb_generated, pickup_scheduled, picked_up,
  in_transit, out_for_delivery, Source, provider_webhook, system,
}
use saas_frontend.Shipping.{Shipment, ShipmentChange}

-- The column `status` of a scan is free text: a status of a shipment, or any other word.
pub data ScanStatus : Type 0 where
  known : ShipmentStatus → ScanStatus
  unknown : Text → ScanStatus

-- A normalized event of a courier.
pub record Scan : Type 0 where
  pub status : ScanStatus
  pub raw_status : Text
  pub location : Option Text
  pub remark : Option Text
  pub event_timestamp : ℕ

-- `'webhook' | 'poll' | 'manual'`
pub data ScanSource : Type 0 where
  webhook poll manual : ScanSource

-- A row of `tracking_events`.
pub record TrackingEvent : Type 0 where
  pub id : ℕ
  pub shipment_id : ℕ
  pub scan : Scan
  pub source : ScanSource

-- The event `tracking.status_changed`, with the tenant, the number of the shipment and its status,
-- and a job of the NDR detection.
pub data FeedEffect : Type 0 where
  status_changed : ℕ → Option Text → ShipmentStatus → FeedEffect
  ndr_detection : ℕ → FeedEffect

pub record Feed : Type 0 where
  pub events : List TrackingEvent
  pub shipments : List Shipment
  pub history : List ShipmentChange
  pub next_id : ℕ
  pub effects : List FeedEffect

-- `sort((a, b) => a.event_timestamp - b.event_timestamp)`, which is stable.
abbrev pub insert_scan : Scan → List Scan → List Scan
insert_scan e [] = e ∷ []
insert_scan e (x ∷ xs) =
    let rest = insert_scan e xs in
    if ltb e.event_timestamp x.event_timestamp then e ∷ x ∷ xs else x ∷ rest

unfoldable pub sort_scans : List Scan → List Scan → List Scan
sort_scans sorted [] = sorted
sort_scans sorted (e ∷ es) = sort_scans (insert_scan e sorted) es

-- The unique index on `(shipment_id, raw_status, event_timestamp)`.
abbrev pub same_key : ℕ → Scan → TrackingEvent → Bool
same_key shipment e row =
    (row.shipment_id == shipment)
    && (text_eq row.scan.raw_status e.raw_status && (row.scan.event_timestamp == e.event_timestamp))

abbrev pub is_recorded : ℕ → Scan → List TrackingEvent → Bool
is_recorded shipment e [] = false
is_recorded shipment e (row ∷ rows) = same_key shipment e row || is_recorded shipment e rows

-- `TrackingEvent.create` with `ignoreDuplicates`: a duplicate is not inserted. The row that it
-- answers has the id that it was to get; whether a duplicate's does too is up to the database layer.
abbrev pub create_event : Bool → ℕ → ScanSource → Scan → Feed → List ℕ × Feed
create_event answers_ignored shipment source e t =
    let t' : Feed = record t { next_id = t.next_id + 1 } in
    if is_recorded shipment e t.events
    then (if answers_ignored then t.next_id ∷ [] else [], t')
    else (
      t.next_id ∷ [],
      record t' {
        events =
            record { id = t.next_id; shipment_id = shipment; scan = e; source = source } ∷ t.events;
      },
    )

-- The loop over the sorted events, with the ids that it gathers, the latest first.
unfoldable pub create_events : Bool → ℕ → ScanSource → List Scan → List ℕ → Feed → List ℕ × Feed
create_events answers_ignored shipment source [] ids t = (ids, t)
create_events answers_ignored shipment source (e ∷ es) ids t =
    let (new, t') = create_event answers_ignored shipment source e t in
    create_events answers_ignored shipment source es (elim new [ [] ↦ ids | id ∷ rest ↦ id ∷ ids ])
      t'

abbrev pub latest : Scan → List Scan → Scan
latest e [] = e
latest e (x ∷ xs) = latest x xs

abbrev pub history_source : ScanSource → Source
history_source webhook = provider_webhook
history_source _ = system

abbrev pub shipment_by_id : ℕ → Feed → Option Shipment
shipment_by_id id t = find_one (λ s. s.id == id) t.shipments

abbrev pub change_status : Shipment → ShipmentStatus → ScanSource → Feed → Feed
change_status sh status source t = record t {
  shipments = update_where (λ s. s.id == sh.id) (λ s. record s { status = status }) t.shipments;
  history =
      record {
        shipment_id = sh.id;
        old_status = some sh.status;
        new_status = status;
        source = history_source source;
      }
      ∷ t.history;
  effects = status_changed sh.tenant_id sh.awb_number status ∷ t.effects;
}

-- A status that is no shipment's is no valid transition either: the event is logged and skipped.
abbrev pub follow : Shipment → ScanStatus → ScanSource → Feed → Feed
follow sh (unknown word) source t = t
follow sh (known status) source t =
    if same_status status sh.status then t else elim (validate_transition sh.status status) [
      | err e ↦ t
      | ok u ↦ change_status sh status source t
    ]

-- The shipment's status follows the latest event.
unfoldable pub sync : ℕ → Scan → ScanSource → Feed → Feed
sync shipment e source t = elim (shipment_by_id shipment t) [
  | none ↦ t
  | some sh ↦ follow sh e.status source t
]

abbrev pub enqueue : List ℕ → Feed → Feed
enqueue [] t = t
enqueue (id ∷ ids) t =
    let t' = enqueue ids t in record t' { effects = ndr_detection id ∷ t'.effects }

abbrev pub has_shipment : ℕ → Feed → Bool
has_shipment id t = elim (shipment_by_id id t) [ none ↦ false | some sh ↦ true ]

abbrev pub ingest_sorted : Bool → ℕ → ScanSource → List Scan → Feed → Feed
ingest_sorted answers_ignored shipment source [] t = t
ingest_sorted answers_ignored shipment source (e ∷ es) t =
    let (ids, t') = create_events answers_ignored shipment source (e ∷ es) [] t in
    let synced = sync shipment (latest e es) source t' in
    if has_shipment shipment t' then enqueue ids synced else synced

-- `ingestTrackingEvents`, in a transaction of its own. A shipment that is gone ends it early, and no
-- job is queued.
unfoldable pub ingest_tracking_events : Bool → ℕ → List Scan → ScanSource → Feed → Feed
unfolding sort_scans create_events sync
ingest_tracking_events answers_ignored shipment scans source t =
    ingest_sorted answers_ignored shipment source (sort_scans [] scans) t

-- `ACTIVE_TRANSIT_STATUSES`
abbrev pub active_transit_statuses : List ShipmentStatus
active_transit_statuses =
    awb_generated ∷ pickup_scheduled ∷ picked_up ∷ in_transit ∷ out_for_delivery ∷ []

-- `STUCK_THRESHOLD_HOURS`, in seconds
abbrev pub stuck_threshold : ℕ
stuck_threshold = 72 * 3600

-- Times are in seconds.
abbrev pub is_recent : ℕ → ℕ → TrackingEvent → Bool
is_recent now shipment row =
    (row.shipment_id == shipment) && leb now (row.scan.event_timestamp + stuck_threshold)

abbrev pub is_stuck : ℕ → List TrackingEvent → Shipment → Bool
is_stuck now events s =
    contains same_status active_transit_statuses s.status
    && (not s.is_delayed_flag && (count_where (is_recent now s.id) events == 0))

-- `flagStuckShipments`, which answers how many it has flagged
unfoldable pub flag_stuck_shipments : ℕ → Feed → ℕ × Feed
flag_stuck_shipments now t = (
  count_where (is_stuck now t.events) t.shipments,
  record t {
    shipments =
        update_where (is_stuck now t.events) (λ s. record s { is_delayed_flag = true }) t.shipments;
  },
)

abbrev pub has_awb : Option Text → Bool
has_awb none = false
has_awb (some awb) = true

-- `getShipmentIdsForPolling`
unfoldable pub shipment_ids_for_polling : List Shipment → List ℕ
shipment_ids_for_polling [] = []
shipment_ids_for_polling (s ∷ ss) =
    let rest = shipment_ids_for_polling ss in
    if contains same_status active_transit_statuses s.status && has_awb s.awb_number
    then s.id ∷ rest
    else rest
