-- ===== src/Courier/Breaker/Tests.antt =====
-- A Redis that keeps what it is told with its expiry, and instances of the theorems.
use saas_frontend.Base.{
  ℕ, ◌+◌, ◌*◌, ◌≤◌, ◌<◌, ◌≡◌, refl, true, Option, none, some, [], ◌∷◌, err, arith, ltb, leb,
  if◌then◌else◌,
}
use saas_frontend.Courier.Breaker.Defs.{
  BreakerState, half_open, closed, Redis, ProviderRow, circuit_breaker_open, Config, Breaker,
  record_failure, check_breaker_state,
}
use saas_frontend.Courier.Breaker.Cooldown.{record_failure-opens}

-- The failures with no expiry, and the state with the end of its life.
record Keys : Type 0 where
  failures : ℕ
  state : Option (BreakerState × ℕ)

abbrev alive : ℕ → Option (BreakerState × ℕ) → Option BreakerState
alive t none = none
alive t (some (st, end)) = if ltb t end then some st else none

alive-within : (t end : ℕ) (st : BreakerState) → t < end → alive t (some (st, end)) ≡ some st
alive-within t end st lt = ground arith

alive-after : (t end : ℕ) (st : BreakerState) → end ≤ t → alive t (some (st, end)) ≡ none
alive-after t end st le = ground arith

leb-positive : (n : ℕ) → 1 ≤ n → leb 1 n ≡ true
leb-positive n le = ground arith

abbrev redis : Redis
redis = record {
  Store = Keys;
  incr_failures = λ t s. (s.failures + 1, record s { failures = s.failures + 1 });
  expire_failures = λ t ttl s. s;
  get_failures = λ t s. s.failures;
  get_state = λ t s. alive t s.state;
  set_state = λ t st ttl s. record s { state = some (st, t + ttl * 1000) };
  set_opened_at = λ t ttl s. s;
  del_failures = λ s. record s { failures = 0 };
  del_state = λ s. record s { state = none };
  del_opened_at = λ s. s;
  accepts_lifetime = λ ttl. leb 1 ttl;
  accepts_positive = leb-positive;
  get_state-set_state = λ t t' ttl st s le lt. alive-within t' (t + ttl * 1000) st lt;
  get_state-expired = λ t t' ttl st s le. alive-after t' (t + ttl * 1000) st le;
  get_state-del_state = λ t s. refl;
  get_state-incr_failures = λ t t' s. refl;
  get_state-expire_failures = λ t t' ttl s. refl;
  get_state-set_opened_at = λ t t' ttl s. refl;
  get_state-del_opened_at = λ t s. refl;
}

abbrev config : Config
config = record {
  threshold = 5;
  window_seconds = 60;
  cooldown_seconds = 30;
  active_admins = 1 ∷ [];
}

abbrev row : ProviderRow
row = record {
  circuit_breaker_state = closed;
  circuit_breaker_opened_at = none;
  consecutive_failures = 0;
}

-- Four calls have failed.
abbrev breaker : Breaker redis
breaker = record { store = record { failures = 4; state = none }; row = some row; effects = [] }

record_failure-opens_example :
    check_breaker_state config 20000 (record_failure config 1000 breaker)
    ≡ (err circuit_breaker_open, record_failure config 1000 breaker)
record_failure-opens_example =
    record_failure-opens redis config 1000 breaker (omega arith) refl 20000 (omega arith)
      (omega arith)

-- The trial call went through.
abbrev trial : Breaker redis
trial = record breaker { row = some (record row { circuit_breaker_state = half_open }) }
