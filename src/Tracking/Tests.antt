-- ===== src/Tracking/Tests.antt =====
-- A booked shipment, the scans of its pickup, and instances of the theorems.
use saas_frontend.Base.{ℕ, ◌≡◌, refl, true, false, none, some, List, [], ◌∷◌, map}
use saas_frontend.Base.Int.{pos}
use saas_frontend.Base.Text.{Text, codes}
use saas_frontend.Status.Shipments.{
  ShipmentStatus, awb_generated, pickup_scheduled, picked_up, validate_transition, Next,
}
use saas_frontend.Shipping.{Shipment}
use saas_frontend.Tracking.Defs.{
  Scan, webhook, poll, known, Feed, ingest_tracking_events, flag_stuck_shipments,
  shipment_ids_for_polling,
}
use saas_frontend.Tracking.Twice.{SameTables, ingest_tracking_events_twice}
use saas_frontend.Tracking.Life.{
  LivesOn, Batch, ingest_all, ingest_all-LivesOn, ingest_tracking_events-skips,
}

abbrev sh : Shipment
sh = record {
  id = 100;
  tenant_id = 1;
  order_id = 10;
  courier_provider_id = 5;
  pickup_address_id = 3;
  awb_number = some (codes "AWB");
  courier_shipment_id = none;
  service_type = 0;
  selected_rate = pos 4500;
  cod_charge = 0;
  declared_weight_g = 500;
  is_delayed_flag = false;
  status = awb_generated;
  label_url = none;
  estimated_delivery_date = none;
  created_by = 9;
}

abbrev feed : Feed
feed = record { events = []; shipments = sh ∷ []; history = []; next_id = 1; effects = [] }

abbrev scan : ShipmentStatus → Text → ℕ → Scan
scan status raw at = record {
  status = known status;
  raw_status = raw;
  location = none;
  remark = none;
  event_timestamp = at;
}

abbrev scheduled : Scan
scheduled = scan pickup_scheduled (codes "PUS") 600000

abbrev collected : Scan
collected = scan picked_up (codes "PU") 603600

abbrev batch : List Scan → Batch
batch scans = record { answers_ignored = true; shipment = 100; scans = scans; source = webhook }

abbrev one_by_one : List Batch
one_by_one = batch (scheduled ∷ []) ∷ batch (collected ∷ []) ∷ batch (scheduled ∷ []) ∷ []

-- Scan by scan the status follows, and a late repeat does no harm.
follows : map (λ (s : Shipment). s.status) (ingest_all one_by_one feed).shipments ≡ picked_up ∷ []
unfolding ingest_tracking_events validate_transition
follows = refl

stuck : (flag_stuck_shipments 1000000 (ingest_all one_by_one feed)).0 ≡ 1
unfolding ingest_tracking_events validate_transition flag_stuck_shipments
stuck = refl

polled : shipment_ids_for_polling feed.shipments ≡ 100 ∷ []
unfolding shipment_ids_for_polling
polled = refl

ingest_tracking_events_twice_example :
    let t = ingest_tracking_events true 100 (scheduled ∷ collected ∷ []) webhook feed in
    SameTables (ingest_tracking_events true 100 (scheduled ∷ collected ∷ []) poll t) t
ingest_tracking_events_twice_example =
    ingest_tracking_events_twice true true 100 (scheduled ∷ collected ∷ []) webhook poll feed

ingest_all-LivesOn_example : LivesOn 100 sh (ingest_all one_by_one feed)
ingest_all-LivesOn_example = ingest_all-LivesOn 100 sh one_by_one feed refl

too_far : ¬ Next awb_generated picked_up
too_far n = elim n [ ]

-- The two scans of a pickup in one batch.
ingest_tracking_events-skips_example :
    let t = ingest_tracking_events true 100 (collected ∷ scheduled ∷ []) poll feed in
    (t.shipments ≡ sh ∷ []) × (t.history ≡ [])
unfolding ingest_tracking_events
ingest_tracking_events-skips_example =
    ingest_tracking_events-skips true 100 sh (collected ∷ scheduled ∷ []) (collected ∷ []) scheduled
      picked_up poll feed refl refl refl too_far
