-- ===== src/Tracking/Twice.antt =====
-- A batch of scans that comes twice is recorded once.
use saas_frontend.Base.{
  ℕ, ◌≡◌, refl, ap, ◌∙◌, Bool, true, none, some, List, [], ◌∷◌, arith, ◌==◌, ==_iff, find_one,
  update_where, find_one-update_where, All, map-All, Option-cases, Bool-cases, Result-cases, inl,
  inr,
}
use saas_frontend.Base.Text.{Text, text_eq}
use saas_frontend.Status.Shipments.{ShipmentStatus, same_status, validate_transition}
use saas_frontend.Shipping.{Shipment}
use saas_frontend.Tracking.Defs.{
  Scan, ScanStatus, ScanSource, known, unknown, Feed, TrackingEvent, is_recorded, create_event,
  create_events, sync, shipment_by_id, sort_scans, ingest_sorted, ingest_tracking_events, latest,
  has_shipment, enqueue,
}

text_eq_refl : (s : Text) → text_eq s s ≡ true
text_eq_refl [] = refl
text_eq_refl (c ∷ s) = ground (arith, text_eq_refl s)

-- What the two ingestions agree on: all but the next id and the effects.
abbrev pub SameTables : Feed → Feed → Type 0
SameTables t u = (t.events ≡ u.events) × (t.shipments ≡ u.shipments) × (t.history ≡ u.history)

abbrev IsRecorded : ℕ → List TrackingEvent → Scan → Type 0
IsRecorded shipment rows e = is_recorded shipment e rows ≡ true

create_event-IsRecorded :
    (answers : Bool) (shipment : ℕ) (source : ScanSource) (e : Scan) (t : Feed)
    → IsRecorded shipment (create_event answers shipment source e t).1.events e
create_event-IsRecorded answers shipment source e t = ground (arith, text_eq_refl e.raw_status)

create_event-keeps :
    (answers : Bool) (shipment : ℕ) (source : ScanSource) (e x : Scan) (t : Feed)
    → IsRecorded shipment t.events x
    → IsRecorded shipment (create_event answers shipment source e t).1.events x
create_event-keeps answers shipment source e x t h = ground arith

create_event-tables :
    (answers : Bool) (shipment : ℕ) (source : ScanSource) (e : Scan) (t : Feed)
    → ((create_event answers shipment source e t).1.shipments ≡ t.shipments)
      × ((create_event answers shipment source e t).1.history ≡ t.history)
create_event-tables answers shipment source e t = ground arith

create_events-keeps :
    (answers : Bool) (shipment : ℕ) (source : ScanSource) (es : List Scan) (ids : List ℕ) (x : Scan)
    (t : Feed)
    → IsRecorded shipment t.events x
    → IsRecorded shipment (create_events answers shipment source es ids t).1.events x
unfolding create_events
create_events-keeps answers shipment source [] ids x t h = h
create_events-keeps answers shipment source (e ∷ es) ids x t h =
    create_events-keeps answers shipment source es _ x _
      (create_event-keeps answers shipment source e x t h)

-- After the loop every event of the batch is recorded.
create_events-All :
    (answers : Bool) (shipment : ℕ) (source : ScanSource) (es : List Scan) (ids : List ℕ) (t : Feed)
    → All (IsRecorded shipment (create_events answers shipment source es ids t).1.events) es
unfolding create_events
create_events-All answers shipment source [] ids t = tt
create_events-All answers shipment source (e ∷ es) ids t = (
  create_events-keeps answers shipment source es _ e _
      (create_event-IsRecorded answers shipment source e t),
  create_events-All answers shipment source es _ _,
)

pub create_events-tables :
    (answers : Bool) (shipment : ℕ) (source : ScanSource) (es : List Scan) (ids : List ℕ) (t : Feed)
    → ((create_events answers shipment source es ids t).1.shipments ≡ t.shipments)
      × ((create_events answers shipment source es ids t).1.history ≡ t.history)
unfolding create_events
create_events-tables answers shipment source [] ids t = (refl, refl)
create_events-tables answers shipment source (e ∷ es) ids t =
    let here = create_event-tables answers shipment source e t in
    let there =
      create_events-tables answers shipment source es _
        (create_event answers shipment source e t).1 in
    (there.0 ∙ here.0, there.1 ∙ here.1)

-- Events that are recorded are not inserted.
create_events-recorded :
    (answers : Bool) (shipment : ℕ) (source : ScanSource) (es : List Scan) (ids : List ℕ) (t : Feed)
    → All (IsRecorded shipment t.events) es
    → (create_events answers shipment source es ids t).1.events ≡ t.events
unfolding create_events
create_events-recorded answers shipment source [] ids t h = refl
create_events-recorded answers shipment source (e ∷ es) ids t h =
    let same : (create_event answers shipment source e t).1.events ≡ t.events =
      ground (arith, h.0) in
    create_events-recorded answers shipment source es _ (create_event answers shipment source e t).1
      (map-All _ _ es (λ x r. rw same r) h.1)
    ∙ same

sync-events :
    (shipment : ℕ) (e : Scan) (source : ScanSource) (t : Feed)
    → (sync shipment e source t).events ≡ t.events
unfolding sync
sync-events shipment e source t = ground arith

same_status_refl : (s : ShipmentStatus) → same_status s s ≡ true
same_status_refl s = ground arith

-- The row of a shipment after an update of its status.
pub updated :
    (id : ℕ) (s : Shipment) (status : ShipmentStatus) (rows : List Shipment)
    → find_one (λ (r : Shipment). r.id == id) rows ≡ some s
    → find_one
        (λ (r : Shipment). r.id == id)
        (update_where (λ r. r.id == s.id) (λ r. record r { status = status }) rows)
      ≡ some (record s { status = status })
updated id s status rows found =
    find_one-update_where (λ (r : Shipment). r.id == id) (λ (r : Shipment). r.id == s.id)
      (λ r. record r { status = status }) rows {x = s} (λ y. refl) found
    ∙ ground (arith, ==_iff s.id s.id)

follow_unknown :
    (id : ℕ) (e : Scan) (word : Text) (source source' : ScanSource) (s : Shipment) (t u : Feed)
    → e.status ≡ unknown word
    → shipment_by_id id t ≡ some s
    → u.shipments ≡ (sync id e source t).shipments
    → sync id e source' u ≡ u
unfolding sync
follow_unknown id e word source source' s t u w found same = ground arith

follow_known :
    (id : ℕ) (e : Scan) (status : ShipmentStatus) (source source' : ScanSource) (s : Shipment)
    (t u : Feed)
    → e.status ≡ known status
    → shipment_by_id id t ≡ some s
    → u.shipments ≡ (sync id e source t).shipments
    → sync id e source' u ≡ u
unfolding sync
follow_known id e status source source' s t u k found same =
    elim (Bool-cases (same_status status s.status)) [
      | inl already ↦ ground arith
      | inr other ↦ elim (Result-cases (validate_transition s.status status)) [
        | inr (x, refused) ↦ ground arith
        | inl (x, accepted) ↦
            ground (arith, updated id s status t.shipments found, same_status_refl status)
      ]
    ]

-- A sync finds nothing to do where the shipments are as a sync by the same event left them.
sync_settled :
    (id : ℕ) (e : Scan) (source source' : ScanSource) (t u : Feed)
    → u.shipments ≡ (sync id e source t).shipments
    → sync id e source' u ≡ u
sync_settled id e source source' t u same = elim (Option-cases (shipment_by_id id t)) [
  | inl gone ↦ unsynced gone same
  | inr (s, found) ↦ by_status e.status refl s found
]
  where
    unsynced :
        shipment_by_id id t ≡ none
        → u.shipments ≡ (sync id e source t).shipments
        → sync id e source' u ≡ u
    unsynced gone same = unfold sync in ground arith

    by_status :
        (w : ScanStatus)
        → e.status ≡ w
        → (s : Shipment) → shipment_by_id id t ≡ some s
        → sync id e source' u ≡ u
    by_status (unknown word) w s found = follow_unknown id e word source source' s t u w found same
    by_status (known status) w s found = follow_known id e status source source' s t u w found same

enqueue-SameTables : (ids : List ℕ) (t : Feed) → SameTables (enqueue ids t) t
enqueue-SameTables [] t = (refl, refl, refl)
enqueue-SameTables (id ∷ ids) t = enqueue-SameTables ids t

pub ingest_sorted_tables :
    (answers : Bool) (id : ℕ) (source : ScanSource) (e : Scan) (es : List Scan) (t : Feed)
    → SameTables
        (ingest_sorted answers id source (e ∷ es) t)
        (sync id (latest e es) source (create_events answers id source (e ∷ es) [] t).1)
ingest_sorted_tables answers id source e es t =
    let made = create_events answers id source (e ∷ es) [] t in
    elim (Bool-cases (has_shipment id made.1)) [
      | inl there ↦ rw there (enqueue-SameTables made.0 (sync id (latest e es) source made.1))
      | inr gone ↦ rw gone (refl, refl, refl)
    ]

ingest_sorted_twice :
    (answers answers' : Bool) (id : ℕ) (source source' : ScanSource) (es : List Scan) (t : Feed)
    → let t' = ingest_sorted answers id source es t in
      SameTables (ingest_sorted answers' id source' es t') t'
ingest_sorted_twice answers answers' id source source' [] t = (refl, refl, refl)
ingest_sorted_twice answers answers' id source source' (e ∷ es) t =
    let u : Feed = ingest_sorted answers id source (e ∷ es) t in
    let made = create_events answers id source (e ∷ es) [] t in
    let first = ingest_sorted_tables answers id source e es t in
    let u' : Feed = (create_events answers' id source' (e ∷ es) [] u).1 in
    let kept = create_events-tables answers' id source' (e ∷ es) [] u in
    let events : u.events ≡ made.1.events = first.0 ∙ sync-events id (latest e es) source made.1 in
    let recorded : All (IsRecorded id u.events) (e ∷ es) =
      map-All _ _ (e ∷ es) (λ x r. rw events r)
        (create_events-All answers id source (e ∷ es) [] t) in
    let quiet : sync id (latest e es) source' u' ≡ u' =
      sync_settled id (latest e es) source source' made.1 u' (kept.0 ∙ first.1) in
    let second = ingest_sorted_tables answers' id source' e es u in
    (
      second.0
          ∙ ap (λ (x : Feed). x.events) quiet
          ∙ create_events-recorded answers' id source' (e ∷ es) [] u recorded,
      second.1 ∙ ap (λ (x : Feed). x.shipments) quiet ∙ kept.0,
      second.2 ∙ ap (λ (x : Feed). x.history) quiet ∙ kept.1,
    )

-- A batch that comes again, also from another source, leaves the scans, the shipments and their
-- histories as its first ingestion left them.
pub ingest_tracking_events_twice :
    (answers answers' : Bool) (id : ℕ) (scans : List Scan) (source source' : ScanSource) (t : Feed)
    → let t' = ingest_tracking_events answers id scans source t in
      SameTables (ingest_tracking_events answers' id scans source' t') t'
unfolding ingest_tracking_events
ingest_tracking_events_twice answers answers' id scans source source' t =
    ingest_sorted_twice answers answers' id source source' (sort_scans [] scans) t
