-- ===== src/Returns/Single.antt =====
-- The services of failed deliveries and returns, and the ingestion of scans, one call after another.
use saas_frontend.Base.{ℕ, Bool, Option, List, [], ◌∷◌}
use saas_frontend.Base.Text.{Text}
use saas_frontend.Tracking.{Scan, ScanSource, ingest_tracking_events}
use saas_frontend.Returns.Words.{RtoStatus}
use saas_frontend.Returns.Defs.{Returns, Config}
use saas_frontend.Returns.Detection.{detect_and_process_ndr_or_rto}
use saas_frontend.Returns.Actions.{
  ActionData, take_ndr_action, take_bulk_ndr_action, update_rto_status,
}
use saas_frontend.Returns.Keeping.{IsSingle}
use saas_frontend.Returns.Scanned.{Keeps-detect}
use saas_frontend.Returns.Acted.{Keeps-take, Keeps-bulk, Keeps-update_rto_status}

pub data Command : Type 0 where
  ingest : Bool → ℕ → List Scan → ScanSource → Command
  detect : Config → ℕ → Command
  act : (ℕ → Bool) → ℕ → ℕ → ℕ → ActionData → Command
  act_on_all : (ℕ → Bool) → ℕ → ℕ → ActionData → List ℕ → Command
  set_status : ℕ → ℕ → ℕ → RtoStatus → Option Text → Command

abbrev pub step : Command → Returns → Returns
step (ingest answers shipment scans source) t = record t {
  feed = ingest_tracking_events answers shipment scans source t.feed;
}
step (detect c id) t = (detect_and_process_ndr_or_rto c id t).1
step (act reaches id tenant user d) t = (take_ndr_action reaches id tenant user d t).1
step (act_on_all reaches tenant user d ids) t = (take_bulk_ndr_action reaches tenant user d ids t).1
step (set_status now id tenant status awb) t = (update_rto_status now id tenant status awb t).1

abbrev pub run : List Command → Returns → Returns
run [] t = t
run (c ∷ cs) t = run cs (step c t)

step-IsSingle : (c : Command) (t : Returns) → IsSingle t → IsSingle (step c t)
step-IsSingle (ingest answers shipment scans source) t h = h
step-IsSingle (detect c id) t h = Keeps-detect c id t h
step-IsSingle (act reaches id tenant user d) t h = Keeps-take reaches id tenant user d t h
step-IsSingle (act_on_all reaches tenant user d ids) t h = Keeps-bulk reaches tenant user d ids t h
step-IsSingle (set_status now id tenant status awb) t h =
    Keeps-update_rto_status now id tenant status awb t h

-- Whatever scans, detections, actions and changes of returns come one after another, each at its end
-- before the next begins, in whatever order and whether they succeed or fail: where no shipment has two
-- open failed deliveries, or two returns, none has afterwards.
pub run-IsSingle : (cs : List Command) (t : Returns) → IsSingle t → IsSingle (run cs t)
run-IsSingle [] t h = h
run-IsSingle (c ∷ cs) t h = run-IsSingle cs (step c t) (step-IsSingle c t h)
