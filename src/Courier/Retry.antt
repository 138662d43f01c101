-- ===== src/Courier/Retry.antt =====
-- `isTransientError` and `executeWithRetry` (backend/src/providers/shared/retryPolicy.util.js). The
-- function that is tried is a parameter: what it answers on its first call, on its second, and so on.
-- A delay is in milliseconds; logging is not modelled.
use saas_frontend.Base.{
  ℕ, zero, suc, ◌+◌, ◌*◌, ◌≤◌, ◌<◌, ◌≡◌, ◌⊎◌, inl, inr, Bool, true, false, ◌&&◌, ◌||◌, not, Option,
  none, some, List, [], ◌∷◌, Result, ok, err, arith, leb, ◌==◌, if◌then◌else◌, Bool-cases,
  Result-cases,
}
use saas_frontend.Base.Text.{Text, codes, text_eq}

-- What the code reads of an error. `response` is the status of the answer, if there was one.
pub record CallError : Type 0 where
  pub is_axios_error : Bool
  pub response : Option ℕ
  pub code : Option Text
  pub message : Option Text

starts_with : Text → Text → Bool
starts_with [] s = true
starts_with (a ∷ p) [] = false
starts_with (a ∷ p) (b ∷ s) = (a == b) && starts_with p s

-- `s.includes(part)`
unfoldable pub includes : Text → Text → Bool
unfolding starts_with
includes part [] = starts_with part []
includes part (c ∷ s) = let rest = includes part s in starts_with part (c ∷ s) || rest

abbrev pub is_server_error : Option ℕ → Bool
is_server_error none = true
is_server_error (some status) = leb 500 status && leb status 599

abbrev pub is_code : Text → Option Text → Bool
is_code wanted none = false
is_code wanted (some c) = text_eq c wanted

abbrev pub mentions : Text → Option Text → Bool
mentions part none = false
mentions part (some m) = includes part m

-- `isTransientError`
unfoldable pub is_transient_error : CallError → Bool
unfolding includes
is_transient_error e =
    if e.is_axios_error
    then is_server_error e.response
    else (is_code (codes "ECONNABORTED") e.code
        || mentions (codes "timeout") e.message
        || mentions (codes "Network Error") e.message)

-- `Math.pow(3, n)`
abbrev pub pow_3 : ℕ → ℕ
pow_3 zero = 1
pow_3 (suc n) = 3 * pow_3 n

-- The loop on fuel: the calls that were made before, and the delays that were slept, the latest
-- first.
unfoldable pub attempts_from {ℓ} :
    {A : Type ℓ}
    → ℕ
    → ℕ
    → (ℕ → Result CallError A)
    → ℕ
    → ℕ
    → List ℕ
    → Option (Result CallError A × List ℕ)
attempts_from max base fn zero attempt waits = none
attempts_from max base fn (suc fuel) attempt waits =
    let rest = attempts_from max base fn fuel (attempt + 1) (base * pow_3 attempt ∷ waits) in
    elim (fn attempt) [
      | ok x ↦ some (ok x, waits)
      | err e ↦
          if leb max (attempt + 1) || not (is_transient_error e) then some (err e, waits) else rest
    ]

-- `executeWithRetry`, with a call for each attempt that the settings allow
unfoldable pub execute_with_retry {ℓ} :
    {A : Type ℓ} → ℕ → ℕ → (ℕ → Result CallError A) → Option (Result CallError A × List ℕ)
unfolding attempts_from
execute_with_retry max base fn = attempts_from max base fn max 0 []

-- A call that fails in a way that may pass.
abbrev pub IsTransient {ℓ} : {A : Type ℓ} → Result CallError A → Type ℓ
IsTransient r = (e : CallError) × (r ≡ err e) × (is_transient_error e ≡ true)

-- A call after which there is nothing to try: it answers, or it fails for good.
abbrev pub IsFinal {ℓ} : {A : Type ℓ} → Result CallError A → Type ℓ
IsFinal {A} r =
    ((x : A) × (r ≡ ok x)) ⊎ ((e : CallError) × (r ≡ err e) × (is_transient_error e ≡ false))

-- The delays after the first `n` calls, the latest first.
abbrev pub backoffs : ℕ → ℕ → List ℕ
backoffs base zero = []
backoffs base (suc n) = base * pow_3 n ∷ backoffs base n

-- The last call, counted from 0, and what came before it.
pub record Tried {ℓ} {A : Type ℓ} (max base : ℕ) (fn : ℕ → Result CallError A)
    (r : Option (Result CallError A × List ℕ)) : Type ℓ where
  pub last : ℕ
  pub allowed : last + 1 ≤ max
  pub before : (k : ℕ) → k < last → IsTransient (fn k)
  pub result : r ≡ some (fn last, backoffs base last)
  pub stops : IsFinal (fn last) ⊎ (last + 1 ≡ max)

-- From a call that comes after transient failures only, the loop ends as it should.
attempts_from-Tried :
    {A : Type 0} (max base fuel attempt : ℕ) (fn : ℕ → Result CallError A)
    → fuel + attempt ≡ max
    → 1 ≤ fuel
    → ((k : ℕ) → k < attempt → IsTransient (fn k))
    → Tried max base fn (attempts_from max base fn fuel attempt (backoffs base attempt))
unfolding attempts_from
attempts_from-Tried max base zero attempt fn e positive before = absurd (omega arith)
attempts_from-Tried max base (suc fuel) attempt fn e positive before =
    elim (Result-cases (fn attempt)) [
      | inl (x, answered) ↦ record {
        last = attempt;
        allowed = omega arith;
        before = before;
        result = ground (arith, answered);
        stops = inl (inl (x, answered));
      }
      | inr (x, failed) ↦ elim (Bool-cases (leb max (attempt + 1) || not (is_transient_error x))) [
        | inl stop ↦ record {
          last = attempt;
          allowed = omega arith;
          before = before;
          result = ground (arith, failed, stop);
          stops = elim (Bool-cases (is_transient_error x)) [
            | inl transient ↦ inr (ground arith)
            | inr permanent ↦ inl (inr (x, failed, permanent))
          ];
        }
        | inr go_on ↦ rw (continues x failed go_on) (
            attempts_from-Tried max base fuel (attempt + 1) fn (omega arith) (ground arith) (λ k lt.
              elim (Bool-cases (k == attempt)) [
                | inl same ↦ (x, ground arith, ground arith)
                | inr other ↦ before k (ground arith)
              ]))
      ]
    ]
  where
    continues :
        (x : CallError)
        → fn attempt ≡ err x
        → (leb max (attempt + 1) || not (is_transient_error x)) ≡ false
        → attempts_from max base fn (suc fuel) attempt (backoffs base attempt)
          ≡ attempts_from max base fn fuel (attempt + 1) (backoffs base (attempt + 1))
    continues x failed go_on = unfold attempts_from in ground (arith, failed, go_on)

-- Whatever the tried function answers, the loop ends within the allowed calls. It returns what the
-- last call answered, having slept `base`, `3 * base`, `9 * base` and so on, one delay for each call
-- before. Each of those calls failed in a transient way, and the last one answered, or failed for
-- good, or was the last that is allowed.
pub execute_with_retry-Tried :
    {A : Type 0} (max base : ℕ) (fn : ℕ → Result CallError A)
    → 1 ≤ max
    → Tried max base fn (execute_with_retry max base fn)
unfolding execute_with_retry
execute_with_retry-Tried max base fn positive =
    attempts_from-Tried max base max 0 fn (omega arith) positive (λ k lt. absurd (omega arith))
