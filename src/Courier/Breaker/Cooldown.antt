-- ===== src/Courier/Breaker/Cooldown.antt =====
-- How long an open circuit refuses calls, and how it comes back.
use saas_frontend.Base.{
  ℕ, ◌+◌, ◌*◌, ◌≤◌, ◌<◌, ◌≡◌, false, none, some, ok, err, arith, ◌==◌, if◌then◌else◌, Option-cases,
  inl, inr,
}
use saas_frontend.Courier.Breaker.Defs.{
  open_state, half_open, is_open, Redis, ProviderRow, circuit_breaker_open, Config, Breaker,
  or_closed, record_failure, open_circuit, record_success, check_breaker_state, fall_back,
}

-- The failures that Redis counts with this one.
abbrev pub failures_with : {redis : Redis} → ℕ → Breaker redis → ℕ
failures_with {redis} now b = (redis.incr_failures now b.store).0

module _ (redis : Redis) (config : Config) (now : ℕ) (b : Breaker redis)
    (reached : config.threshold ≤ failures_with now b)
    (shut : is_open (or_closed (redis.get_state now b.store)) ≡ false) where
  opens :
      record_failure config now b
      ≡ open_circuit config now (failures_with now b) (record b {
        store =
            if failures_with now b == 1
            then redis.expire_failures now config.window_seconds (redis.incr_failures now b.store).1
            else (redis.incr_failures now b.store).1;
      })
  unfolding record_failure
  opens = ground (
    arith,
    redis.get_state-incr_failures now now b.store,
    redis.get_state-expire_failures now now config.window_seconds
        (redis.incr_failures now b.store).1,
  )

  -- From the failure that reaches the threshold while the circuit is not open, every check within
  -- the cooldown is refused, and changes nothing.
  pub record_failure-opens :
      (later : ℕ)
      → now ≤ later
      → later < now + config.cooldown_seconds * 1000
      → check_breaker_state config later (record_failure config now b)
        ≡ (err circuit_breaker_open, record_failure config now b)
  record_failure-opens later le lt = rw opens (opened later _ le lt)
    where
      opened :
          (later : ℕ) (b' : Breaker redis)
          → now ≤ later
          → later < now + config.cooldown_seconds * 1000
          → check_breaker_state config later (open_circuit config now (failures_with now b) b')
            ≡ (err circuit_breaker_open, open_circuit config now (failures_with now b) b')
      opened later b' le lt =
          unfold check_breaker_state open_circuit in
          elim (Option-cases b'.row) [
            | inl gone ↦ ground (
              arith,
              gone,
              redis.get_state-set_opened_at now later config.cooldown_seconds
                  (redis.set_state now open_state config.cooldown_seconds b'.store),
              redis.get_state-set_state now later config.cooldown_seconds open_state b'.store le lt,
            )
            | inr (row, e) ↦ ground (
              arith,
              e,
              redis.get_state-set_opened_at now later config.cooldown_seconds
                  (redis.set_state now open_state config.cooldown_seconds b'.store),
              redis.get_state-set_state now later config.cooldown_seconds open_state b'.store le lt,
            )
          ]

  -- After the cooldown the next check lets one call through as a trial, and the database says so.
  pub record_failure-half_opens :
      (later : ℕ) (row : ProviderRow)
      → b.row ≡ some row
      → now + config.cooldown_seconds * 1000 ≤ later
      → let (r, b') = check_breaker_state config later (record_failure config now b) in
        (r ≡ ok half_open)
        × (b'.row
            ≡ some (record {
              circuit_breaker_state = half_open;
              circuit_breaker_opened_at = some now;
              consecutive_failures = failures_with now b;
            }))
  record_failure-half_opens later row e le = rw opens (half_opened later row _ e le)
    where
      half_opened :
          (later : ℕ) (row : ProviderRow) (b' : Breaker redis)
          → b'.row ≡ some row
          → now + config.cooldown_seconds * 1000 ≤ later
          → let (r, b'') =
              check_breaker_state config later (open_circuit config now (failures_with now b) b') in
            (r ≡ ok half_open)
            × (b''.row
                ≡ some (record {
                  circuit_breaker_state = half_open;
                  circuit_breaker_opened_at = some now;
                  consecutive_failures = failures_with now b;
                }))
      half_opened later row b' e le =
          unfold check_breaker_state open_circuit fall_back in
          ground (
            arith,
            e,
            redis.get_state-set_opened_at now later config.cooldown_seconds
                (redis.set_state now open_state config.cooldown_seconds b'.store),
            redis.get_state-expired now later config.cooldown_seconds open_state b'.store le,
          )

-- Where Redis holds no state, as after a cooldown, a success leaves the provider's row as it was, also
-- one that is `half_open` or `open`, and writes no audit row.
pub success_keeps_half_open :
    (redis : Redis) (now : ℕ) (b : Breaker redis)
    → redis.get_state now b.store ≡ none
    → ((record_success now b).row ≡ b.row) × ((record_success now b).effects ≡ b.effects)
unfolding record_success
success_keeps_half_open redis now b gone = ground arith
