-- ===== src/Returns/Attempts.antt =====
-- What one scan of a failed delivery does: to a shipment without one, within the threshold, and over
-- it.
use saas_frontend.Base.{
  Result, subst, ℕ, ◌+◌, ◌<◌, true, false, ◌≡◌, refl, ap, sym, ◌∙◌, none, some, ok, arith, ◌==◌,
  ==_iff, ltb, find_one, find_one-update_where, Bool-cases, inl, inr,
}
use saas_frontend.Status.Shipments.{Source, cancelled, same_status, same_status_sound, system}
use saas_frontend.Shipping.{Shipment}
use saas_frontend.Tracking.{Feed, TrackingEvent}
use saas_frontend.Tracking.Twice.{updated}
use saas_frontend.Returns.Words.{rto_initiated, ReasonCode, detect_ndr_reason, detect_rto_status}
use saas_frontend.Returns.Defs.{
  Error, threshold_surpassed, insert_rto, new_rto, resolved_rto, close, own_transaction, Returns,
  NdrEvent, RtoRecord, Config, auto_ndr_threshold, shipment_of, open_ndr, rto_of, is_open_for,
  update_ndr, end_shipment,
}
use saas_frontend.Returns.Detection.{
  new_ndr, on_shipment, create_ndr, give_up, handle_event, handle_ndr_event, on_event,
  detect_and_process_ndr_or_rto,
}

-- A recorded scan of a shipment that tells of a failed delivery.
abbrev pub Fails : Feed → ℕ → ℕ → Type 0
Fails f shipment id =
    (e : TrackingEvent) × (find_one (λ (x : TrackingEvent). x.id == id) f.events ≡ some e)
    × (e.shipment_id ≡ shipment)
    × (detect_rto_status e.scan.status e.scan.remark ≡ none)
    × (r : ReasonCode) × (detect_ndr_reason e.scan.status e.scan.remark ≡ some r)

-- A shipment as it was, without a return, with an open failed delivery of so many attempts.
abbrev pub Waits : Shipment → ℕ → Returns → Type 0
Waits sh k t =
    (shipment_of sh.id t ≡ some sh)
    × (rto_of sh.id t ≡ none)
    × (n : NdrEvent) × (open_ndr sh.id t ≡ some n)
    × (n.attempt_number ≡ k)

-- A detection that leaves the scans, and a failed delivery of so many attempts.
abbrev Counts : Config → Shipment → ℕ → ℕ → Returns → Type 0
Counts c sh id k t =
    let t' = (detect_and_process_ndr_or_rto c id t).1 in (t'.feed ≡ t.feed) × Waits sh k t'

Counts-subst :
    (c : Config) (sh : Shipment) (id k : ℕ) (t u : Returns)
    → detect_and_process_ndr_or_rto c id t ≡ (ok tt, u)
    → (u.feed ≡ t.feed) × Waits sh k u
    → Counts c sh id k t
Counts-subst c sh id k t u went h = rw went h

-- A cancelled shipment on its way back.
abbrev pub IsGivenUp : Shipment → Returns → Type 0
IsGivenUp sh t =
    ((r : RtoRecord) × (rto_of sh.id t ≡ some r) × (r.initiated_by ≡ auto_ndr_threshold))
    × (s : Shipment) × (shipment_of sh.id t ≡ some s)
    × (s.status ≡ cancelled)

pub detect-Fails :
    (c : Config) (sh : Shipment) (id : ℕ) (t : Returns)
    → shipment_of sh.id t ≡ some sh
    → (fails : Fails t.feed sh.id id)
    → detect_and_process_ndr_or_rto c id t
      ≡ own_transaction (handle_ndr_event c fails.0 sh fails.4) t
unfolding detect_and_process_ndr_or_rto
detect-Fails c sh id t there (e, found, of_sh, on_its_way, r, failed) =
    let located : shipment_of e.shipment_id t ≡ some sh = ap (λ n. shipment_of n t) of_sh ∙ there in
    let handled : handle_event c e sh ≡ handle_ndr_event c e sh r =
      rw (handle_event, on_its_way, failed) refl in
    ap (λ o. on_event c o t) found
    ∙ ap (λ o. on_shipment c e o t) located
    ∙ ap (λ m. own_transaction m t) handled

pub handle-new :
    (c : Config) (e : TrackingEvent) (sh : Shipment) (r : ReasonCode) (t : Returns)
    → open_ndr sh.id t ≡ none
    → handle_ndr_event c e sh r t ≡ (ok tt, create_ndr c e sh r t)
handle-new c e sh r t new = rw (handle_ndr_event, new) refl

abbrev counted : TrackingEvent → NdrEvent → NdrEvent → NdrEvent
counted e n r = record r { attempt_number = n.attempt_number + 1; tracking_event_id = some e.id }

handle-counts :
    (c : Config) (e : TrackingEvent) (sh : Shipment) (r : ReasonCode) (n : NdrEvent) (t : Returns)
    → open_ndr sh.id t ≡ some n
    → n.attempt_number < c.threshold sh.tenant_id
    → handle_ndr_event c e sh r t ≡ (ok tt, update_ndr n.id (counted e n) t)
handle-counts c e sh r n t waiting below =
    let within : ltb (c.threshold sh.tenant_id) (n.attempt_number + 1) ≡ false =
      ground (arith, below) in
    rw (handle_ndr_event, waiting, within) refl

pub handle-gives_up :
    (c : Config) (e : TrackingEvent) (sh : Shipment) (r : ReasonCode) (n : NdrEvent) (t : Returns)
    → open_ndr sh.id t ≡ some n
    → n.attempt_number ≡ c.threshold sh.tenant_id
    → handle_ndr_event c e sh r t ≡ give_up c e sh n t
handle-gives_up c e sh r n t waiting reached =
    let over : ltb (c.threshold sh.tenant_id) (n.attempt_number + 1) ≡ true =
      ground (arith, reached) in
    rw (handle_ndr_event, waiting, over) refl

-- A first failure is an open failed delivery of one attempt.
pub detect-new :
    (c : Config) (sh : Shipment) (id : ℕ) (t : Returns)
    → shipment_of sh.id t ≡ some sh
    → rto_of sh.id t ≡ none
    → open_ndr sh.id t ≡ none
    → Fails t.feed sh.id id
    → Counts c sh id 1 t
detect-new c sh id t there free new fails =
    let (e, _, _, _, r, _) = fails in
    let went : detect_and_process_ndr_or_rto c id t ≡ (ok tt, create_ndr c e sh r t) =
      detect-Fails c sh id t there fails ∙ ap (close t) (handle-new c e sh r t new) in
    Counts-subst c sh id 1 t (create_ndr c e sh r t) went
      (refl, (there, free, new_ndr c e sh r t.next_id, ground (arith, ==_iff sh.id sh.id), refl))

-- A further failure within the threshold counts as an attempt.
pub detect-Counts :
    (c : Config) (sh : Shipment) (id k : ℕ) (t : Returns)
    → Waits sh k t
    → k < c.threshold sh.tenant_id
    → Fails t.feed sh.id id
    → Counts c sh id (k + 1) t
detect-Counts c sh id k t (there, free, n, waiting, attempts) below fails =
    let (e, _, _, _, r, _) = fails in
    let went : detect_and_process_ndr_or_rto c id t ≡ (ok tt, update_ndr n.id (counted e n) t) =
      detect-Fails c sh id t there fails
      ∙ ap (close t) (handle-counts c e sh r n t waiting (omega (arith, below, attempts))) in
    let still_open : open_ndr sh.id (update_ndr n.id (counted e n) t) ≡ some (counted e n n) =
      find_one-update_where (is_open_for sh.id) (λ (x : NdrEvent). x.id == n.id) (counted e n)
        t.ndrs {x = n} (λ y. refl) waiting
      ∙ ground (arith, ==_iff n.id n.id) in
    Counts-subst c sh id (k + 1) t (update_ndr n.id (counted e n) t) went
      (refl, (there, free, counted e n n, still_open, omega (arith, attempts)))

abbrev closed : TrackingEvent → NdrEvent → NdrEvent → NdrEvent
closed e n r = record r {
  attempt_number = n.attempt_number + 1;
  status = resolved_rto;
  tracking_event_id = some e.id;
}

abbrev auto_rto : Config → Shipment → ℕ → RtoRecord
auto_rto c sh =
    new_rto sh.tenant_id sh.id (threshold_surpassed (c.threshold sh.tenant_id)) auto_ndr_threshold
      rto_initiated

give_up-free :
    (c : Config) (e : TrackingEvent) (sh : Shipment) (n : NdrEvent) (t : Returns)
    → rto_of sh.id t ≡ none
    → give_up c e sh n t ≡ (
      ok tt,
      end_shipment sh system (insert_rto (auto_rto c sh) (update_ndr n.id (closed e n) t)),
    )
give_up-free c e sh n t free = ground (arith, free)

end_shipment-cancelled :
    (sh : Shipment) (source : Source) (t : Returns)
    → shipment_of sh.id t ≡ some sh
    → (s : Shipment) × (shipment_of sh.id (end_shipment sh source t) ≡ some s)
      × (s.status ≡ cancelled)
end_shipment-cancelled sh source t there = elim (Bool-cases (same_status sh.status cancelled)) [
  | inl ended ↦ rw ended (sh, there, same_status_sound sh.status cancelled ended)
  | inr living ↦
      rw living
        (record sh { status = cancelled }, updated sh.id sh cancelled t.feed.shipments there, refl)
]

end_shipment-rto_of :
    (sh : Shipment) (source : Source) (shipment : ℕ) (t : Returns)
    → rto_of shipment (end_shipment sh source t) ≡ rto_of shipment t
end_shipment-rto_of sh source shipment t = ground arith

pub detect-gives_up :
    (c : Config) (sh : Shipment) (id : ℕ) (t : Returns)
    → Waits sh (c.threshold sh.tenant_id) t
    → Fails t.feed sh.id id
    → IsGivenUp sh (detect_and_process_ndr_or_rto c id t).1
detect-gives_up c sh id t (there, free, n, waiting, attempts) fails =
    let (e, _, _, _, r, _) = fails in
    let u = insert_rto (auto_rto c sh) (update_ndr n.id (closed e n) t) in
    let went : detect_and_process_ndr_or_rto c id t ≡ (ok tt, end_shipment sh system u) =
      detect-Fails c sh id t there fails
      ∙ ap (close t)
          (handle-gives_up c e sh r n t waiting attempts ∙ give_up-free c e sh n t free) in
    let row : rto_of sh.id (end_shipment sh system u) ≡ some (auto_rto c sh t.next_id) =
      end_shipment-rto_of sh system sh.id u ∙ ground (arith, ==_iff sh.id sh.id) in
    let kept = end_shipment-cancelled sh system u there in
    subst (λ (p : Result Error (Unit {0}) × Returns). IsGivenUp sh p.1) (sym went)
      ((auto_rto c sh t.next_id, row, refl), _, kept.1, kept.2)
