-- ===== src/Returns/Threshold.antt =====
-- Deliveries that fail one after another, without an action in between.
use saas_frontend.Base.{
  err, subst, ℕ, suc, ◌+◌, ◌≤◌, ◌≡◌, ap, sym, ◌∙◌, none, some, List, [], ◌∷◌, arith, All, length,
}
use saas_frontend.Shipping.{Shipment}
use saas_frontend.Tracking.{TrackingEvent}
use saas_frontend.Returns.Defs.{
  duplicate_rto, close, Returns, NdrEvent, RtoRecord, Config, shipment_of, open_ndr, rto_of,
}
use saas_frontend.Returns.Detection.{give_up, detect_and_process_ndr_or_rto}
use saas_frontend.Returns.Attempts.{
  handle-gives_up, detect-Fails, Fails, Waits, IsGivenUp, detect-new, detect-Counts,
  detect-gives_up,
}

abbrev pub detect_all : Config → List ℕ → Returns → Returns
detect_all c [] t = t
detect_all c (id ∷ ids) t = detect_all c ids (detect_and_process_ndr_or_rto c id t).1

-- Failures after the first.
waits :
    (c : Config) (sh : Shipment) (ids : List ℕ) (k m : ℕ) (t : Returns)
    → Waits sh k t
    → All (Fails t.feed sh.id) ids
    → m ≡ k + length ids
    → m ≤ c.threshold sh.tenant_id
    → Waits sh m (detect_all c ids t)
waits c sh [] k m t h fails e l = subst (λ n. Waits sh n t) (omega (arith, e)) h
waits c sh (id ∷ ids) k m t h fails e l =
    let (kept, next) = detect-Counts c sh id k t h (omega (arith, e, l)) fails.0 in
    waits c sh ids (k + 1) m _ next (subst (λ f. All (Fails f sh.id) ids) (sym kept) fails.1)
      (omega (arith, e)) l

gives_up :
    (c : Config) (sh : Shipment) (ids : List ℕ) (k : ℕ) (t : Returns)
    → Waits sh k t
    → All (Fails t.feed sh.id) ids
    → k + length ids ≡ c.threshold sh.tenant_id + 1
    → k ≤ c.threshold sh.tenant_id
    → IsGivenUp sh (detect_all c ids t)
gives_up c sh [] k t h fails e l = absurd (omega (arith, e, l))
gives_up c sh (id ∷ []) k t h fails e l =
    detect-gives_up c sh id t (subst (λ n. Waits sh n t) (omega (arith, e)) h) fails.0
gives_up c sh (id ∷ next ∷ ids) k t h fails e l =
    let (kept, counted_one) = detect-Counts c sh id k t h (omega (arith, e)) fails.0 in
    gives_up c sh (next ∷ ids) (k + 1) _ counted_one
      (subst (λ f. All (Fails f sh.id) (next ∷ ids)) (sym kept) fails.1) (omega (arith, e))
      (omega (arith, e))

-- From a shipment without an open failed delivery and without a return, scans that tell of failed
-- deliveries count as attempts while they are no more than the tenant's threshold, with the shipment
-- as it was and no return; one more, with a threshold of 1 or higher, starts a return and cancels the
-- shipment.
pub detect_all-returns :
    (c : Config) (sh : Shipment) (id : ℕ) (ids : List ℕ) (t : Returns)
    → shipment_of sh.id t ≡ some sh
    → rto_of sh.id t ≡ none
    → open_ndr sh.id t ≡ none
    → Fails t.feed sh.id id
    → All (Fails t.feed sh.id) ids
    → 1 ≤ c.threshold sh.tenant_id
    → ((suc (length ids) ≤ c.threshold sh.tenant_id)
        → Waits sh (suc (length ids)) (detect_all c (id ∷ ids) t))
      × ((suc (length ids) ≡ c.threshold sh.tenant_id + 1)
          → IsGivenUp sh (detect_all c (id ∷ ids) t))
detect_all-returns c sh id ids t there free new fails rest atleast =
    let (kept, one) = detect-new c sh id t there free new fails in
    let rest' = subst (λ f. All (Fails f sh.id) ids) (sym kept) rest in
    (
      waits c sh ids 1 (suc (length ids)) _ one rest' (omega arith),
      λ e. gives_up c sh ids 1 _ one rest' (omega (arith, e)) atleast,
    )

give_up-duplicate :
    (c : Config) (e : TrackingEvent) (sh : Shipment) (n : NdrEvent) (x : RtoRecord) (t : Returns)
    → rto_of sh.id t ≡ some x
    → close t (give_up c e sh n t) ≡ (err duplicate_rto, t)
give_up-duplicate c e sh n x t there = ground (arith, there)

-- For a shipment that has a return, as when it was lost on the way back and is sent out again, the
-- failed attempt that passes the threshold is refused by the unique column, and nothing is written:
-- the attempt is not counted, and the shipment is not cancelled, however often the job is tried.
pub detect-duplicate :
    (c : Config) (sh : Shipment) (id : ℕ) (n : NdrEvent) (x : RtoRecord) (t : Returns)
    → shipment_of sh.id t ≡ some sh
    → rto_of sh.id t ≡ some x
    → open_ndr sh.id t ≡ some n
    → n.attempt_number ≡ c.threshold sh.tenant_id
    → Fails t.feed sh.id id
    → detect_and_process_ndr_or_rto c id t ≡ (err duplicate_rto, t)
detect-duplicate c sh id n x t there back waiting reached fails =
    let (e, _, _, _, r, _) = fails in
    detect-Fails c sh id t there fails
    ∙ ap (close t) (handle-gives_up c e sh r n t waiting reached)
    ∙ give_up-duplicate c e sh n x t back
