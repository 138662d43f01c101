-- ===== src/Tracking/Life.antt =====
-- What scans do to the status of a shipment.
use saas_frontend.Base.{
  ℕ, ◌≡◌, refl, ap, sym, subst, ◌∙◌, Bool, some, List, [], ◌∷◌, arith, ◌==◌, ==_iff, find_one,
  find_one-update_where_other, find_one-holds, Option-cases, Bool-cases, Result-cases, inl, inr,
}
use saas_frontend.Status.Shipments.{
  ShipmentStatus, same_status, validate_transition, validate_transition_iff, Next,
}
use saas_frontend.Shipping.{Shipment}
use saas_frontend.Tracking.Defs.{
  Scan, ScanStatus, ScanSource, known, unknown, Feed, create_events, sync, follow, change_status,
  shipment_by_id, sort_scans, ingest_sorted, ingest_tracking_events, latest,
}
use saas_frontend.Tracking.Twice.{updated, create_events-tables, ingest_sorted_tables}

-- Steps of a shipment's life, one after another.
pub data Leads (a : ShipmentStatus) : ShipmentStatus → Type 0 where
  here : Leads a a
  then_step : {b c : ShipmentStatus} → Leads a b → Next b c → Leads a c

Leads-trans : {a b c : ShipmentStatus} → Leads a b → Leads b c → Leads a c
Leads-trans p here = p
Leads-trans p (then_step q n) = then_step (Leads-trans p q) n

-- A shipment is still there, with a status that its life leads to.
abbrev pub LivesOn : ℕ → Shipment → Feed → Type 0
LivesOn id s t = (s' : Shipment) × (shipment_by_id id t ≡ some s') × Leads s.status s'.status

change-LivesOn :
    (id id' : ℕ) (s sh : Shipment) (status : ShipmentStatus) (source : ScanSource) (t : Feed)
    → shipment_by_id id t ≡ some s
    → shipment_by_id id' t ≡ some sh
    → Next sh.status status
    → LivesOn id s (change_status sh status source t)
change-LivesOn id id' s sh status source t found found' n = elim (Bool-cases (sh.id == id)) [
  | inl hit ↦
      let e : sh.id ≡ id = (==_iff sh.id id).0 hit in
      let e' : sh.id ≡ id' =
        (==_iff sh.id id').0 (find_one-holds (λ (r : Shipment). r.id == id') t.shipments found') in
      let same : sh ≡ s = cc (e, e', found, found') in
      (
        record sh { status = status },
        updated id sh status t.shipments (found ∙ ap some (sym same)),
        then_step here (subst (λ (x : Shipment). Next x.status status) same n),
      )
  | inr miss ↦ (
    s,
    find_one-update_where_other (λ (r : Shipment). r.id == id) (λ (r : Shipment). r.id == sh.id)
          (λ r. record r { status = status }) t.shipments (λ y. refl) (λ y h. ground arith)
        ∙ found,
    here,
  )
]

follow-LivesOn :
    (id id' : ℕ) (s sh : Shipment) (w : ScanStatus) (source : ScanSource) (t : Feed)
    → shipment_by_id id t ≡ some s
    → shipment_by_id id' t ≡ some sh
    → LivesOn id s (follow sh w source t)
follow-LivesOn id id' s sh (unknown word) source t found found' = (s, found, here)
follow-LivesOn id id' s sh (known status) source t found found' =
    elim (Bool-cases (same_status status sh.status)) [
      | inl already ↦ rw already (s, found, here)
      | inr other ↦ elim (Result-cases (validate_transition sh.status status)) [
        | inr (x, refused) ↦ rw (other, refused) (s, found, here)
        | inl (x, accepted) ↦
            rw (other, accepted)
              (change-LivesOn id id' s sh status source t found found'
                (elim ((validate_transition_iff sh.status status).0 accepted) [
                  | inl e ↦ absurd (ground arith)
                  | inr n ↦ n
                ]))
      ]
    ]

sync-LivesOn :
    (id id' : ℕ) (s : Shipment) (e : Scan) (source : ScanSource) (t : Feed)
    → shipment_by_id id t ≡ some s
    → LivesOn id s (sync id' e source t)
unfolding sync
sync-LivesOn id id' s e source t found = elim (Option-cases (shipment_by_id id' t)) [
  | inl gone ↦ rw (sync, gone) (s, found, here)
  | inr (sh, found') ↦ rw (sync, found') (follow-LivesOn id id' s sh e.status source t found found')
]

ingest_sorted-LivesOn :
    (answers : Bool) (id id' : ℕ) (s : Shipment) (source : ScanSource) (es : List Scan) (t : Feed)
    → shipment_by_id id t ≡ some s
    → LivesOn id s (ingest_sorted answers id' source es t)
ingest_sorted-LivesOn answers id id' s source [] t found = (s, found, here)
ingest_sorted-LivesOn answers id id' s source (e ∷ es) t found =
    let t' : Feed = (create_events answers id' source (e ∷ es) [] t).1 in
    let find = find_one (λ (r : Shipment). r.id == id) in
    let (s', there, leads) =
      sync-LivesOn id id' s (latest e es) source t'
        (ap find (create_events-tables answers id' source (e ∷ es) [] t).0 ∙ found) in
    (s', ap find (ingest_sorted_tables answers id' source e es t).1 ∙ there, leads)

-- A batch that was ingested for a shipment.
pub record Batch : Type 0 where
  pub answers_ignored : Bool
  pub shipment : ℕ
  pub scans : List Scan
  pub source : ScanSource

abbrev pub ingest_all : List Batch → Feed → Feed
ingest_all [] t = t
ingest_all (b ∷ bs) t =
    ingest_all bs (ingest_tracking_events b.answers_ignored b.shipment b.scans b.source t)

-- Whatever scans arrive, in whatever order and for whichever shipments, each shipment stays in its
-- table, and its status goes forward by steps of a shipment's life alone, or stays.
pub ingest_all-LivesOn :
    (id : ℕ) (s : Shipment) (bs : List Batch) (t : Feed)
    → shipment_by_id id t ≡ some s
    → LivesOn id s (ingest_all bs t)
unfolding ingest_tracking_events
ingest_all-LivesOn id s [] t found = (s, found, here)
ingest_all-LivesOn id s (b ∷ bs) t found =
    let (s', there, leads) =
      ingest_sorted-LivesOn b.answers_ignored id b.shipment s b.source (sort_scans [] b.scans) t
        found in
    let (s'', last, leads') = ingest_all-LivesOn id s' bs _ there in
    (s'', last, Leads-trans leads leads')

refused_follow :
    (sh : Shipment) (status : ShipmentStatus) (source : ScanSource) (t : Feed)
    → ¬ Next sh.status status
    → follow sh (known status) source t ≡ t
refused_follow sh status source t far = elim (Bool-cases (same_status status sh.status)) [
  | inl already ↦ rw already refl
  | inr other ↦ elim (Result-cases (validate_transition sh.status status)) [
    | inr (x, refused) ↦ rw (other, refused) refl
    | inl (x, accepted) ↦ elim ((validate_transition_iff sh.status status).0 accepted) [
      | inl e ↦ absurd (ground arith)
      | inr n ↦ absurd (far n)
    ]
  ]
]

-- A batch whose latest scan is no next step of the shipment's life leaves every shipment and history
-- as it was, whatever scans of the steps between it brings too.
pub ingest_tracking_events-skips :
    (answers : Bool) (id : ℕ) (s : Shipment) (scans es : List Scan) (e : Scan)
    (status : ShipmentStatus) (source : ScanSource) (t : Feed)
    → shipment_by_id id t ≡ some s
    → sort_scans [] scans ≡ e ∷ es
    → (latest e es).status ≡ known status
    → ¬ Next s.status status
    → let t' = ingest_tracking_events answers id scans source t in
      (t'.shipments ≡ t.shipments) × (t'.history ≡ t.history)
unfolding ingest_tracking_events
ingest_tracking_events-skips answers id s scans es e status source t found sorted last far =
    let t' : Feed = (create_events answers id source (e ∷ es) [] t).1 in
    let kept = create_events-tables answers id source (e ∷ es) [] t in
    let tables = ingest_sorted_tables answers id source e es t in
    let found' : shipment_by_id id t' ≡ some s =
      ap (find_one (λ (r : Shipment). r.id == id)) kept.0 ∙ found in
    let quiet : sync id (latest e es) source t' ≡ t' =
      unfold sync in rw (sync, found', last) (refused_follow s status source t' far) in
    rw sorted (
      tables.1 ∙ ap (λ (x : Feed). x.shipments) quiet ∙ kept.0,
      tables.2 ∙ ap (λ (x : Feed). x.history) quiet ∙ kept.1,
    )
