-- ===== src/Returns/Tests.antt =====
-- A shipment whose delivery fails, and instances of the theorems.
use saas_frontend.Base.{ℕ, ◌≡◌, ◌≤◌, refl, true, false, none, some, List, [], ◌∷◌, ok, arith, map}
use saas_frontend.Base.Int.{pos}
use saas_frontend.Base.Text.{codes}
use saas_frontend.Status.Shipments.{out_for_delivery, delivered, in_transit}
use saas_frontend.Shipping.{Shipment}
use saas_frontend.Tracking.{known, webhook, TrackingEvent}
use saas_frontend.Returns.Words.{
  customer_unavailable, other_reason, rto_initiated, rto_delivered, rto_lost, rto_in_transit,
  detect_ndr_reason, detect_rto_status,
}
use saas_frontend.Returns.Defs.{
  Returns, NdrEvent, RtoRecord, Config, mark_rto, opened, courier_initiated, reverse_logistics,
}
use saas_frontend.Returns.Detection.{detect_and_process_ndr_or_rto}
use saas_frontend.Returns.Actions.{ActionData, take_ndr_action, update_rto_status}
use saas_frontend.Returns.Keeping.{IsSingle}
use saas_frontend.Returns.Single.{Command, detect, act, set_status, run, run-IsSingle}
use saas_frontend.Returns.Attempts.{Fails, Waits, IsGivenUp}
use saas_frontend.Returns.Threshold.{detect_all, detect_all-returns}
use saas_frontend.Returns.Resets.{IsClear, fail_and_request_all, fail_and_request_all-IsClear}
use saas_frontend.Returns.Received.{IsBack, update_rto_status-IsBack}

-- The words, in whatever case
undelivered :
    detect_ndr_reason (known in_transit) (some (codes "UNDELIVERED: Door Closed"))
    ≡ some customer_unavailable
unfolding detect_ndr_reason
undelivered = refl

held_up : detect_ndr_reason (known in_transit) (some (codes "Held at hub")) ≡ some other_reason
unfolding detect_ndr_reason
held_up = refl

after_delivery :
    detect_ndr_reason (known delivered) (some (codes "Delivered after 2 failed attempts"))
    ≡ some other_reason
unfolding detect_ndr_reason
after_delivery = refl

on_the_way_back :
    detect_rto_status (known in_transit) (some (codes "RTO Initiated")) ≡ some rto_initiated
unfolding detect_rto_status
on_the_way_back = refl

abbrev sh : Shipment
sh = record {
  id = 100;
  tenant_id = 1;
  order_id = 10;
  courier_provider_id = 5;
  pickup_address_id = 3;
  awb_number = some (codes "AWB");
  courier_shipment_id = none;
  service_type = 0;
  selected_rate = pos 4500;
  cod_charge = 0;
  declared_weight_g = 500;
  is_delayed_flag = false;
  status = out_for_delivery;
  label_url = none;
  estimated_delivery_date = none;
  created_by = 9;
}

abbrev failure : ℕ → TrackingEvent
failure id = record {
  id = id;
  shipment_id = 100;
  scan = record {
    status = known out_for_delivery;
    raw_status = codes "UD";
    location = none;
    remark = some (codes "Door closed, failed");
    event_timestamp = 600000;
  };
  source = webhook;
}

abbrev start : Returns
start = record {
  feed = record {
    events = failure 1 ∷ failure 2 ∷ failure 3 ∷ [];
    shipments = sh ∷ [];
    history = [];
    next_id = 4;
    effects = [];
  };
  ndrs = [];
  actions = [];
  rtos = [];
  next_id = 50;
  effects = [];
}

-- A threshold of two attempts
abbrev config : Config
config = record { now = 600000; sla_hours = 48; threshold = λ tenant. 2 }

first_failure : Fails start.feed 100 1
unfolding detect_ndr_reason detect_rto_status
first_failure = (failure 1, refl, refl, refl, customer_unavailable, refl)

second_failure : Fails start.feed 100 2
unfolding detect_ndr_reason detect_rto_status
second_failure = (failure 2, refl, refl, refl, customer_unavailable, refl)

third_failure : Fails start.feed 100 3
unfolding detect_ndr_reason detect_rto_status
third_failure = (failure 3, refl, refl, refl, customer_unavailable, refl)

detect_all-returns_example :
    ((3 ≤ 2) → Waits sh 3 (detect_all config (1 ∷ 2 ∷ 3 ∷ []) start))
    × (◌≡◌ {A = ℕ} 3 3 → IsGivenUp sh (detect_all config (1 ∷ 2 ∷ 3 ∷ []) start))
detect_all-returns_example =
    detect_all-returns config sh 1 (2 ∷ 3 ∷ []) start refl refl refl first_failure
      (second_failure, (third_failure, tt)) (omega arith)

fail_and_request_all-IsClear_example :
    IsClear sh (fail_and_request_all config (λ p. true) sh 9 none (1 ∷ 2 ∷ 3 ∷ []) start)
fail_and_request_all-IsClear_example =
    fail_and_request_all-IsClear config (λ p. true) sh 9 none (1 ∷ 2 ∷ 3 ∷ []) start
      (refl, refl, refl) (first_failure, (second_failure, (third_failure, tt)))

abbrev lost : RtoRecord
lost = record {
  id = 20;
  tenant_id = 1;
  shipment_id = 100;
  initiated_reason = reverse_logistics (known in_transit);
  initiated_by = courier_initiated;
  status = rto_lost;
  rto_awb_number = none;
  received_at_warehouse_at = none;
}

abbrev waiting : NdrEvent
waiting = record {
  id = 30;
  tenant_id = 1;
  shipment_id = 100;
  tracking_event_id = some 2;
  reason_code = customer_unavailable;
  raw_reason = codes "Door closed";
  attempt_number = 2;
  status = opened;
  sla_due_at = 700000;
}

abbrev again : Returns
again = record start { ndrs = waiting ∷ []; rtos = lost ∷ [] }

update_rto_status-IsBack_example :
    let (r, t) = update_rto_status 700000 20 1 rto_delivered (some (codes "R1")) again in
    (r ≡ ok tt) × IsBack 700000 20 1 lost sh again t
update_rto_status-IsBack_example =
    update_rto_status-IsBack 700000 20 1 (some (codes "R1")) lost sh again refl refl

abbrev returning : ActionData
returning = record {
  action_type = mark_rto;
  notes = some (codes "Refused");
  updated_address_line1 = none;
  updated_phone = none;
}

abbrev one_open : Returns
one_open = record start { ndrs = waiting ∷ [] }

abbrev commands : List Command
commands =
    detect config 1
    ∷ detect config 2
    ∷ act (λ p. true) 50 1 9 returning
    ∷ detect config 3
    ∷ set_status 700000 51 1 rto_in_transit none
    ∷ []

run-IsSingle_example : IsSingle (run commands start)
run-IsSingle_example = run-IsSingle commands start (λ shipment. (omega arith, omega arith))

-- After a return the next failure is a new open failed delivery of the cancelled shipment.
runs : map (λ (n : NdrEvent). n.attempt_number) (run commands start).ndrs ≡ 1 ∷ 2 ∷ []
unfolding detect_and_process_ndr_or_rto detect_ndr_reason detect_rto_status take_ndr_action
    update_rto_status
runs = refl
