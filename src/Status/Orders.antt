-- ===== src/Status/Orders.antt =====
-- The statuses of an order, the table of valid transitions, and the check against it.
use saas_frontend.Base.{
  ℕ, ◌≡◌, ◌⊎◌, Bool, List, [], ◌∷◌, Result, ok, err, arith, ◌==◌, if◌then◌else◌, contains,
}

-- `ENUM` of the column `orders.status`
pub data OrderStatus : Type 0 where
  pending processing ready_to_ship shipped cancelled : OrderStatus

-- The position of a status in its `ENUM`, by which two are compared.
abbrev pub code : OrderStatus → ℕ
code pending = 0
code processing = 1
code ready_to_ship = 2
code shipped = 3
code cancelled = 4

abbrev pub same_status : OrderStatus → OrderStatus → Bool
same_status a b = code a == code b

-- `validTransitions`
unfoldable pub valid_transitions : OrderStatus → List OrderStatus
valid_transitions pending = processing ∷ cancelled ∷ []
valid_transitions processing = ready_to_ship ∷ cancelled ∷ []
valid_transitions ready_to_ship = shipped ∷ []
valid_transitions shipped = ready_to_ship ∷ []
valid_transitions cancelled = []

-- `InvalidStatusTransitionError`, with the two statuses that its message names
pub data TransitionError : Type 0 where
  invalid_transition : OrderStatus → OrderStatus → TransitionError

unfoldable pub validate_transition : OrderStatus → OrderStatus → Result TransitionError (Unit {0})
unfolding valid_transitions
validate_transition old new =
    if same_status old new
    then ok tt
    else (if contains same_status (valid_transitions old) new
        then ok tt
        else err (invalid_transition old new))

-- A history of accepted changes.
pub data Reach (first : OrderStatus) : OrderStatus → Type 0 where
  here : Reach first first
  next : {a b : OrderStatus} → Reach first a → validate_transition a b ≡ ok tt → Reach first b

-- Ready for the courier, or with it.
abbrev pub IsCommitted : OrderStatus → Type 0
IsCommitted s = (s ≡ ready_to_ship) ⊎ (s ≡ shipped)

change-IsCommitted :
    (a b : OrderStatus) → validate_transition a b ≡ ok tt → IsCommitted a → IsCommitted b
unfolding validate_transition
change-IsCommitted pending b h c = ground arith
change-IsCommitted processing b h c = ground arith
change-IsCommitted ready_to_ship b h c = ground arith
change-IsCommitted shipped b h c = ground arith
change-IsCommitted cancelled b h c = ground arith

-- Once an order is ready to ship, every status that it can reach is `ready_to_ship` or `shipped`: it
-- can go back and forth between the two, and can no longer be cancelled.
pub Reach-IsCommitted :
    {first last : OrderStatus} → IsCommitted first → Reach first last → IsCommitted last
Reach-IsCommitted c here = c
Reach-IsCommitted c (next {a = a} {b = b} r h) = change-IsCommitted a b h (Reach-IsCommitted c r)

-- A cancelled order stays cancelled.
pub cancelled-stays :
    {first last : OrderStatus} → first ≡ cancelled → Reach first last → last ≡ cancelled
cancelled-stays c here = c
cancelled-stays c (next {a = a} {b = b} r h) = from_cancelled a b h (cancelled-stays c r)
  where
    from_cancelled :
        (a b : OrderStatus) → validate_transition a b ≡ ok tt → a ≡ cancelled → b ≡ cancelled
    from_cancelled a b h e = unfold validate_transition in ground arith
