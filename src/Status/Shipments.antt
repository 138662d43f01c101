-- ===== src/Status/Shipments.antt =====
-- The statuses of a shipment, the table of valid transitions, and the check against it.
use saas_frontend.Base.{
  ℕ, zero, suc, ◌+◌, ◌≤◌, ◌<◌, ◌≡◌, refl, ◌↔◌, ◌⊎◌, inl, inr, Bool, true, false, List, [], ◌∷◌,
  Result, ok, err, arith, ◌==◌, if◌then◌else◌, contains,
}

-- `ENUM` of the column `shipments.status`
pub data ShipmentStatus : Type 0 where
  created awb_generated pickup_scheduled picked_up in_transit : ShipmentStatus
  out_for_delivery delivered cancelled failed : ShipmentStatus

-- The position of a status in its `ENUM`, by which two are compared.
abbrev pub code : ShipmentStatus → ℕ
code created = 0
code awb_generated = 1
code pickup_scheduled = 2
code picked_up = 3
code in_transit = 4
code out_for_delivery = 5
code delivered = 6
code cancelled = 7
code failed = 8

abbrev pub same_status : ShipmentStatus → ShipmentStatus → Bool
same_status a b = code a == code b

pub same_status_sound : (a b : ShipmentStatus) → same_status a b ≡ true → a ≡ b
same_status_sound a b h = ground arith

-- `validTransitions`
unfoldable pub valid_transitions : ShipmentStatus → List ShipmentStatus
valid_transitions created = awb_generated ∷ cancelled ∷ failed ∷ []
valid_transitions awb_generated = pickup_scheduled ∷ cancelled ∷ []
valid_transitions pickup_scheduled = picked_up ∷ cancelled ∷ []
valid_transitions picked_up = in_transit ∷ []
valid_transitions in_transit = out_for_delivery ∷ []
valid_transitions out_for_delivery = delivered ∷ failed ∷ []
valid_transitions delivered = []
valid_transitions cancelled = []
valid_transitions failed = []

-- `InvalidShipmentStatusTransitionError`, with the two statuses that its message names
pub data TransitionError : Type 0 where
  invalid_transition : ShipmentStatus → ShipmentStatus → TransitionError

unfoldable pub validate_transition :
    ShipmentStatus → ShipmentStatus → Result TransitionError (Unit {0})
unfolding valid_transitions
validate_transition old new =
    if same_status old new
    then ok tt
    else (if contains same_status (valid_transitions old) new
        then ok tt
        else err (invalid_transition old new))

-- Who set a status: `source` of a row of the history.
pub data Source : Type 0 where
  manual provider_webhook system : Source

-- The life of a shipment as a relation, independent of the table.
pub data Next : ShipmentStatus → ShipmentStatus → Type 0 where
  book : Next created awb_generated
  schedule : Next awb_generated pickup_scheduled
  pick_up : Next pickup_scheduled picked_up
  depart : Next picked_up in_transit
  go_out : Next in_transit out_for_delivery
  deliver : Next out_for_delivery delivered
  cancel_created : Next created cancelled
  cancel_booked : Next awb_generated cancelled
  cancel_scheduled : Next pickup_scheduled cancelled
  fail_created : Next created failed
  fail_delivery : Next out_for_delivery failed

-- How far a shipment is: three ends share the last place.
abbrev pub rank : ShipmentStatus → ℕ
rank created = 0
rank awb_generated = 1
rank pickup_scheduled = 2
rank picked_up = 3
rank in_transit = 4
rank out_for_delivery = 5
rank delivered = 6
rank cancelled = 6
rank failed = 6

Next-accepted : {a b : ShipmentStatus} → Next a b → validate_transition a b ≡ ok tt
unfolding validate_transition
Next-accepted book = refl
Next-accepted schedule = refl
Next-accepted pick_up = refl
Next-accepted depart = refl
Next-accepted go_out = refl
Next-accepted deliver = refl
Next-accepted cancel_created = refl
Next-accepted cancel_booked = refl
Next-accepted cancel_scheduled = refl
Next-accepted fail_created = refl
Next-accepted fail_delivery = refl

accepted-Next : (a b : ShipmentStatus) → validate_transition a b ≡ ok tt → (a ≡ b) ⊎ Next a b
unfolding validate_transition
accepted-Next created created h = inl refl
accepted-Next created awb_generated h = inr book
accepted-Next created cancelled h = inr cancel_created
accepted-Next created failed h = inr fail_created
accepted-Next created _ h = absurd (cc)
accepted-Next awb_generated awb_generated h = inl refl
accepted-Next awb_generated pickup_scheduled h = inr schedule
accepted-Next awb_generated cancelled h = inr cancel_booked
accepted-Next awb_generated _ h = absurd (cc)
accepted-Next pickup_scheduled pickup_scheduled h = inl refl
accepted-Next pickup_scheduled picked_up h = inr pick_up
accepted-Next pickup_scheduled cancelled h = inr cancel_scheduled
accepted-Next pickup_scheduled _ h = absurd (cc)
accepted-Next picked_up picked_up h = inl refl
accepted-Next picked_up in_transit h = inr depart
accepted-Next picked_up _ h = absurd (cc)
accepted-Next in_transit in_transit h = inl refl
accepted-Next in_transit out_for_delivery h = inr go_out
accepted-Next in_transit _ h = absurd (cc)
accepted-Next out_for_delivery out_for_delivery h = inl refl
accepted-Next out_for_delivery delivered h = inr deliver
accepted-Next out_for_delivery failed h = inr fail_delivery
accepted-Next out_for_delivery _ h = absurd (cc)
accepted-Next delivered delivered h = inl refl
accepted-Next delivered _ h = absurd (cc)
accepted-Next cancelled cancelled h = inl refl
accepted-Next cancelled _ h = absurd (cc)
accepted-Next failed failed h = inl refl
accepted-Next failed _ h = absurd (cc)

-- The check accepts a change of status exactly when the status stays or takes one step of a
-- shipment's life.
pub validate_transition_iff :
    (a b : ShipmentStatus) → (validate_transition a b ≡ ok tt) ↔ ((a ≡ b) ⊎ Next a b)
validate_transition_iff a b =
    (accepted-Next a b, λ h. elim h [ inl e ↦ rw e (stays b) | inr n ↦ Next-accepted n ])
  where
    stays : (c : ShipmentStatus) → validate_transition c c ≡ ok tt
    stays c = unfold validate_transition in ground arith

-- A history of accepted changes, the latest last; repeats of the same status are no change.
pub data History (first : ShipmentStatus) : ℕ → ShipmentStatus → Type 0 where
  start : History first 0 first
  change :
      {n : ℕ} {a b : ShipmentStatus}
      → History first n a
      → validate_transition a b ≡ ok tt
      → same_status a b ≡ false
      → History first (suc n) b

Next-rank : {a b : ShipmentStatus} → Next a b → rank a < rank b
Next-rank book = omega arith
Next-rank schedule = omega arith
Next-rank pick_up = omega arith
Next-rank depart = omega arith
Next-rank go_out = omega arith
Next-rank deliver = omega arith
Next-rank cancel_created = omega arith
Next-rank cancel_booked = omega arith
Next-rank cancel_scheduled = omega arith
Next-rank fail_created = omega arith
Next-rank fail_delivery = omega arith

rank-le : (a : ShipmentStatus) → rank a ≤ 6
rank-le a = ground arith

change-rank :
    (a b : ShipmentStatus)
    → validate_transition a b ≡ ok tt
    → same_status a b ≡ false
    → rank a < rank b
change-rank a b h ne = elim (accepted-Next a b h) [
  | inl e ↦ absurd (ground arith)
  | inr n ↦ Next-rank n
]

history-rank :
    {first last : ShipmentStatus} (n : ℕ) → History first n last → n + rank first ≤ rank last
history-rank zero start = omega arith
history-rank (suc n) (change {a = a} {b = b} h ok_change ne) =
    omega (arith, history-rank n h, change-rank a b ok_change ne)

-- However a shipment begins, its status changes at most six times.
pub history-length : {first last : ShipmentStatus} (n : ℕ) → History first n last → n ≤ 6
history-length {last = last} n h = omega (arith, history-rank n h, rank-le last)
