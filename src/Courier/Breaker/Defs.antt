-- ===== src/Courier/Breaker/Defs.antt =====
-- Redis as an interface, the provider's row, and the breaker's operations. Times are in milliseconds.
use saas_frontend.Base.{
  ℕ, ◌+◌, ◌-◌, ◌*◌, ◌/◌, ◌≤◌, ◌<◌, ◌≡◌, Bool, true, false, Option, none, some, List, [], ◌∷◌,
  Result, ok, err, ◌==◌, leb, ltb, if◌then◌else◌,
}

pub data BreakerState : Type 0 where
  closed open_state half_open : BreakerState

abbrev pub is_open : BreakerState → Bool
is_open open_state = true
is_open _ = false

abbrev pub is_closed : BreakerState → Bool
is_closed closed = true
is_closed _ = false

-- Redis, for the three keys of one provider, as its commands are documented. The first argument of
-- a command that can see an expiry is the time; a lifetime is in seconds.
pub record Redis : Type 1 where
  pub Store : Type 0
  pub incr_failures : ℕ → Store → ℕ × Store
  pub expire_failures : ℕ → ℕ → Store → Store
  pub get_failures : ℕ → Store → ℕ
  pub get_state : ℕ → Store → Option BreakerState
  pub set_state : ℕ → BreakerState → ℕ → Store → Store
  pub set_opened_at : ℕ → ℕ → Store → Store
  pub del_failures : Store → Store
  pub del_state : Store → Store
  pub del_opened_at : Store → Store
  -- Whether `SET … EX` takes a lifetime, as it does unless that is 0.
  pub accepts_lifetime : ℕ → Bool
  pub accepts_positive : (ttl : ℕ) → 1 ≤ ttl → accepts_lifetime ttl ≡ true
  -- A key lives for its lifetime, and is gone after it.
  pub get_state-set_state :
      (t t' ttl : ℕ) (st : BreakerState) (s : Store)
      → t ≤ t'
      → t' < t + ttl * 1000
      → get_state t' (set_state t st ttl s) ≡ some st
  pub get_state-expired :
      (t t' ttl : ℕ) (st : BreakerState) (s : Store)
      → t + ttl * 1000 ≤ t'
      → get_state t' (set_state t st ttl s) ≡ none
  pub get_state-del_state : (t : ℕ) (s : Store) → get_state t (del_state s) ≡ none
  -- The keys do not touch one another.
  pub get_state-incr_failures :
      (t t' : ℕ) (s : Store) → get_state t' (incr_failures t s).1 ≡ get_state t' s
  pub get_state-expire_failures :
      (t t' ttl : ℕ) (s : Store) → get_state t' (expire_failures t ttl s) ≡ get_state t' s
  pub get_state-set_opened_at :
      (t t' ttl : ℕ) (s : Store) → get_state t' (set_opened_at t ttl s) ≡ get_state t' s
  pub get_state-del_opened_at : (t : ℕ) (s : Store) → get_state t (del_opened_at s) ≡ get_state t s

-- The columns of `courier_providers` that the breaker writes.
pub record ProviderRow : Type 0 where
  pub circuit_breaker_state : BreakerState
  pub circuit_breaker_opened_at : Option ℕ
  pub consecutive_failures : ℕ

-- Audit rows of the platform, and mails to its active administrators.
pub data Effect : Type 0 where
  audit_opened : ℕ → ℕ → Effect
  audit_closed : Effect
  mail_opened : ℕ → ℕ → Effect

-- `CircuitBreakerOpenError`, and what Redis answers to a lifetime that it does not take
pub data BreakerError : Type 0 where
  circuit_breaker_open invalid_expire_time : BreakerError

-- `CIRCUIT_BREAKER_THRESHOLD`, `_WINDOW_SECONDS` and `_COOLDOWN_SECONDS`, and the administrators.
pub record Config : Type 0 where
  pub threshold : ℕ
  pub window_seconds : ℕ
  pub cooldown_seconds : ℕ
  pub active_admins : List ℕ

abbrev pub or_closed : Option BreakerState → BreakerState
or_closed none = closed
or_closed (some st) = st

pub record Breaker (redis : Redis) : Type 0 where
  pub store : redis.Store
  pub row : Option ProviderRow
  pub effects : List Effect

abbrev pub mails : ℕ → ℕ → List ℕ → List Effect → List Effect
mails failures now [] es = es
mails failures now (admin ∷ admins) es = mails failures now admins (mail_opened admin failures ∷ es)

-- The provider's row and the alerts when a circuit opens; a provider that is gone gets none.
abbrev pub open_row : Config → ℕ → ℕ → {redis : Redis} → Breaker redis → Breaker redis
open_row config now failures b = elim b.row [
  | none ↦ b
  | some row ↦ record b {
    row = some (record {
      circuit_breaker_state = open_state;
      circuit_breaker_opened_at = some now;
      consecutive_failures = failures;
    });
    effects = mails failures now config.active_admins (audit_opened failures now ∷ b.effects);
  }
]

abbrev pub close_row : {redis : Redis} → Breaker redis → Breaker redis
close_row b = elim b.row [
  | none ↦ b
  | some row ↦ record b {
    row = some (record {
      circuit_breaker_state = closed;
      circuit_breaker_opened_at = none;
      consecutive_failures = 0;
    });
    effects = audit_closed ∷ b.effects;
  }
]

-- The writes of an opening circuit, in Redis and in the database.
unfoldable pub open_circuit : Config → ℕ → ℕ → {redis : Redis} → Breaker redis → Breaker redis
open_circuit config now failures {redis} b = open_row config now failures (record b {
  store =
      redis.set_opened_at now config.cooldown_seconds
        (redis.set_state now open_state config.cooldown_seconds b.store);
})

-- `recordFailure`
unfoldable pub record_failure : Config → ℕ → {redis : Redis} → Breaker redis → Breaker redis
unfolding open_circuit
record_failure config now {redis} b =
    let (failures, counted) = redis.incr_failures now b.store in
    let windowed =
      if failures == 1 then redis.expire_failures now config.window_seconds counted else counted in
    let b' : Breaker redis = record b { store = windowed } in
    if leb config.threshold failures
    then (if is_open (or_closed (redis.get_state now windowed))
        then b'
        else open_circuit config now failures b')
    else b'

-- `recordSuccess`, which is also `resetBreaker`
unfoldable pub record_success : ℕ → {redis : Redis} → Breaker redis → Breaker redis
record_success now {redis} b =
    let current = or_closed (redis.get_state now b.store) in
    let b' : Breaker redis = record b {
      store = redis.del_opened_at (redis.del_state (redis.del_failures b.store));
    } in
    if is_closed current then b' else close_row b'

-- A time that is `null` reads as the epoch.
abbrev pub or_epoch : Option ℕ → ℕ
or_epoch none = 0
or_epoch (some t) = t

-- The open state goes back into Redis for the time that is left of the cooldown, in rounded seconds.
abbrev pub restore :
    Config
    → ℕ
    → ℕ
    → {redis : Redis} → Breaker redis
    → Result BreakerError BreakerState × Breaker redis
restore config now end {redis} b =
    let remaining = (end - now + 500) / 1000 in
    if redis.accepts_lifetime remaining
    then (
      err circuit_breaker_open,
      record b { store = redis.set_state now open_state remaining b.store },
    )
    else (err invalid_expire_time, b)

-- The database decides where Redis has no state.
unfoldable pub fall_back :
    Config
    → ℕ
    → Option ProviderRow
    → {redis : Redis} → Breaker redis
    → Result BreakerError BreakerState × Breaker redis
fall_back config now none b = (ok closed, b)
fall_back config now (some row) b =
    if is_open row.circuit_breaker_state
    then (let end = or_epoch row.circuit_breaker_opened_at + config.cooldown_seconds * 1000 in
        if ltb now end then restore config now end b else (
          ok half_open,
          record b { row = some (record row { circuit_breaker_state = half_open }) },
        ))
    else (ok closed, b)

abbrev pub answer_state :
    BreakerState
    → {redis : Redis} → Breaker redis
    → Result BreakerError BreakerState × Breaker redis
answer_state st b = if is_open st then (err circuit_breaker_open, b) else (ok st, b)

-- `checkBreakerState`
unfoldable pub check_breaker_state :
    Config → ℕ → {redis : Redis} → Breaker redis → Result BreakerError BreakerState × Breaker redis
unfolding fall_back
check_breaker_state config now {redis} b = elim (redis.get_state now b.store) [
  | some st ↦ answer_state st b
  | none ↦ fall_back config now b.row b
]

-- `getBreakerStatus`
unfoldable pub get_breaker_status : ℕ → {redis : Redis} → Breaker redis → BreakerState × ℕ
get_breaker_status now {redis} b = (
  elim (redis.get_state now b.store) [
    | some st ↦ st
    | none ↦ elim b.row [ none ↦ closed | some row ↦ row.circuit_breaker_state ]
  ],
  redis.get_failures now b.store,
)
