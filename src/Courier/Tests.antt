-- ===== src/Courier/Tests.antt =====
-- A call that times out once, and an instance of the theorem on retries.
use saas_frontend.Base.{ℕ, suc, zero, ◌≡◌, refl, false, none, some, [], ◌∷◌, Result, ok, err, arith}
use saas_frontend.Base.Text.{codes}
use saas_frontend.Courier.Retry.{
  CallError, execute_with_retry, is_transient_error, Tried, execute_with_retry-Tried,
}

abbrev timed_out : CallError
timed_out = record {
  is_axios_error = false;
  response = none;
  code = none;
  message = some (codes "a timeout of 5 s");
}

abbrev second_time : ℕ → Result CallError ℕ
second_time zero = err timed_out
second_time (suc n) = ok 7

retries : execute_with_retry 3 500 second_time ≡ some (ok 7, 500 ∷ [])
unfolding execute_with_retry is_transient_error
retries = refl

execute_with_retry-Tried_example : Tried 3 500 second_time (execute_with_retry 3 500 second_time)
execute_with_retry-Tried_example = execute_with_retry-Tried 3 500 second_time (omega arith)
