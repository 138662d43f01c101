-- ===== src/Dispute/Refused.antt =====
-- What the two calls come to.
use saas_frontend.Base.{
  ℕ, ◌≡◌, refl, Bool, false, ◌&&◌, Option, Result, ok, err, arith, ◌==◌, ltb, find_one, is_some,
  Option-cases, Bool-cases, inl, inr, ◌+◌,
}
use saas_frontend.Base.Int.{ℤ}
use saas_frontend.Dispute.Defs.{
  BookedShipment, Dispute, DisputeStatus, opened, under_review, accepted, rejected, reversed,
  Disputes, Error, shipment_not_found, window_expired, dispute_exists, not_null_violation,
  dispute_not_found, already_resolved, Call, dispute_for, is_pending, window, file_dispute,
  resolve_dispute,
}

-- A call that fails and writes nothing.
abbrev pub Refuses : {A : Type 0} → Call A → Disputes → Type 0
Refuses call t = (e : Error) × (call t ≡ (err e, t))

never_pending : (s : DisputeStatus) → is_pending s ≡ false
never_pending opened = refl
never_pending under_review = refl
never_pending accepted = refl
never_pending rejected = refl
never_pending reversed = refl

file_dispute-Refuses :
    (now days tenant shipment : ℕ) (t : Disputes)
    → Refuses (file_dispute now days tenant shipment) t
unfolding file_dispute
file_dispute-Refuses now days tenant shipment t =
    elim (Option-cases (
      find_one (λ (s : BookedShipment). (s.id == shipment) && (s.tenant_id == tenant))
        t.shipments)) [
          | inl gone ↦ (shipment_not_found, rw gone refl)
          | inr (s, found) ↦ elim (Bool-cases (ltb (s.created_at + window days) now)) [
            | inl late ↦ (window_expired, rw (found, late) refl)
            | inr in_time ↦ elim (Bool-cases (is_some (dispute_for shipment t))) [
              | inl old ↦ (dispute_exists, ground (arith, found, in_time, old))
              | inr new ↦ (not_null_violation, ground (arith, found, in_time, new))
            ]
          ]
        ]

resolve_dispute-Refuses :
    (now : ℕ) (at_rate : ℤ → ℤ) (id admin : ℕ) (is_accepted : Bool) (approved : Option ℤ)
    (t : Disputes)
    → Refuses (resolve_dispute now at_rate id admin is_accepted approved) t
unfolding resolve_dispute
resolve_dispute-Refuses now at_rate id admin is_accepted approved t =
    elim (Option-cases (find_one (λ (d : Dispute). d.id == id) t.disputes)) [
      | inl gone ↦ (dispute_not_found, rw gone refl)
      | inr (d, found) ↦ (already_resolved d.status, rw (found, never_pending d.status) refl)
    ]

-- A call of the service: a dispute that is filed, or one that is resolved.
pub data Op : Type 0 where
  files : ℕ → ℕ → ℕ → ℕ → Op
  resolves : ℕ → (ℤ → ℤ) → ℕ → ℕ → Bool → Option ℤ → Op

abbrev pub step : Op → Disputes → Result Error (Unit {0}) × Disputes
step (files now days tenant shipment) t =
    let (r, t') = file_dispute now days tenant shipment t in
    (elim r [ ok id ↦ ok tt | err e ↦ err e ], t')
step (resolves now at_rate id admin is_accepted approved) t =
    resolve_dispute now at_rate id admin is_accepted approved t

-- Whatever the tables hold, every call of the service fails and writes nothing: no dispute is ever
-- filed, as a row lacks columns that the model requires, and none is resolved, as no row can have the
-- status that the service asks for.
pub step-Refuses : (op : Op) (t : Disputes) → Refuses (step op) t
step-Refuses (files now days tenant shipment) t =
    let (e, refused) = file_dispute-Refuses now days tenant shipment t in (e, rw refused refl)
step-Refuses (resolves now at_rate id admin is_accepted approved) t =
    resolve_dispute-Refuses now at_rate id admin is_accepted approved t
