-- ===== src/Returns/Races.antt =====
-- Two failures of a delivery that are detected at the same time, as the worker allows
-- (backend/src/workers/ndrDetection.worker.js).
use saas_frontend.Base.{◌≡◌, none, arith, ==_iff, count_where, count_where-none}
use saas_frontend.Shipping.{Shipment}
use saas_frontend.Tracking.{TrackingEvent}
use saas_frontend.Returns.Words.{ReasonCode}
use saas_frontend.Returns.Defs.{Returns, Config, is_open_for, open_ndr}
use saas_frontend.Returns.Detection.{record_ndr}

-- Two detections of failures of one shipment without an open event, of which the second reads before
-- the first writes: both create an event, and the shipment has two that are open.
pub read_twice-opens_two :
    (c c' : Config) (event event' : TrackingEvent) (sh : Shipment) (reason reason' : ReasonCode)
    (t : Returns)
    → open_ndr sh.id t ≡ none
    → let read = open_ndr sh.id t in
      let t' = (record_ndr c event sh reason read t).1 in
      count_where (is_open_for sh.id) (record_ndr c' event' sh reason' read t').1.ndrs ≡ 2
read_twice-opens_two c c' event event' sh reason reason' t free =
    rw free (ground (arith, count_where-none (is_open_for sh.id) t.ndrs free, ==_iff sh.id sh.id))
