-- ===== src/Billing/Numbering/Gapless.antt =====
-- A series has no gaps and no repeats: each allocation is one more than the last of its key.
use saas_frontend.Base.{
  ℕ, ◌+◌, ◌≡◌, refl, ◌∙◌, ap, ap₂, true, false, ◌&&◌, Option, none, some, List, [], ◌∷◌, ◌==◌,
  arith, inl, inr, find_one, find_one-update_where, find_one-update_where_other, find_one-holds,
  Option-cases, Bool-cases, if◌then◌else◌,
}
use saas_frontend.Billing.Numbering.Defs.{Series, same_series, Sequence, is_key, next_value}

abbrev pub number_of : Option Sequence → ℕ
number_of none = 0
number_of (some s) = s.last_number

-- The last number of a key; a counter that is not there yet stands at 0.
abbrev pub last_of : ℕ → Series → List Sequence → ℕ
last_of fy series seqs = number_of (find_one (is_key fy series) seqs)

same_series_refl : (s : Series) → same_series s s ≡ true
same_series_refl s = ground arith

-- An allocation takes the number after the last of its key, and makes it the last.
next_value-last :
    (fy : ℕ) (series : Series) (seqs : List Sequence)
    → ((next_value fy series seqs).0 ≡ last_of fy series seqs + 1)
      × (last_of fy series (next_value fy series seqs).1 ≡ last_of fy series seqs + 1)
unfolding next_value
next_value-last fy series seqs = elim (Option-cases (find_one (is_key fy series) seqs)) [
  | inl missing ↦ ground (arith, missing, same_series_refl series)
  | inr (s, found) ↦
      rw (found, next_value)
        (
          refl,
          ap number_of (
                find_one-update_where (is_key fy series) (is_key fy series) _ seqs {x = s}
                  (λ y. refl) found)
              ∙ rw (find_one-holds (is_key fy series) seqs found),
        )
]

-- And leaves every other key alone.
next_value-other :
    (fy fy' : ℕ) (series series' : Series) (seqs : List Sequence)
    → ((fy == fy') && same_series series series') ≡ false
    → last_of fy' series' (next_value fy series seqs).1 ≡ last_of fy' series' seqs
unfolding next_value
next_value-other fy fy' series series' seqs apart =
    elim (Option-cases (find_one (is_key fy series) seqs)) [
      | inl missing ↦ rw (missing, next_value) (rw apart)
      | inr (s, found) ↦
          rw (found, next_value)
            (ap number_of (
              find_one-update_where_other (is_key fy' series') (is_key fy series) _ seqs (λ y. refl)
                (λ y h. other y h)))
    ]
  where
    other : (y : Sequence) → is_key fy' series' y ≡ true → is_key fy series y ≡ false
    other y h = ground arith

next_value_hit :
    (fy fy' : ℕ) (series series' : Series) (seqs : List Sequence)
    → ((fy' == fy) && same_series series' series) ≡ true
    → ((next_value fy' series' seqs).0 ≡ last_of fy series seqs + 1)
      × (last_of fy series (next_value fy' series' seqs).1 ≡ last_of fy series seqs + 1)
next_value_hit fy fy' series series' seqs hit =
    let e : fy' ≡ fy = ground arith in
    let f : series' ≡ series = ground arith in rw (e, f) (next_value-last fy series seqs)

-- The numbers that a run of allocations hands out for one key.
abbrev pub issued : ℕ → Series → List (ℕ × Series) → List Sequence → List ℕ
issued fy series [] seqs = []
issued fy series ((fy', series') ∷ calls) seqs =
    let (n, seqs') = next_value fy' series' seqs in
    let rest = issued fy series calls seqs' in
    if (fy' == fy) && same_series series' series then n ∷ rest else rest

-- `n + 1`, `n + 2`, and so on, one for each call of the key.
abbrev pub consecutive : ℕ → ℕ → Series → List (ℕ × Series) → List ℕ
consecutive n fy series [] = []
consecutive n fy series ((fy', series') ∷ calls) =
    if (fy' == fy) && same_series series' series
    then (n + 1) ∷ consecutive (n + 1) fy series calls
    else consecutive n fy series calls

-- However the allocations of all series and years are interleaved, those of one key get the numbers
-- that follow its last one, in order, with no gap and no repeat.
pub issued-consecutive :
    (fy : ℕ) (series : Series) (calls : List (ℕ × Series)) (seqs : List Sequence)
    → issued fy series calls seqs ≡ consecutive (last_of fy series seqs) fy series calls
issued-consecutive fy series [] seqs = refl
issued-consecutive fy series ((fy', series') ∷ calls) seqs =
    elim (Bool-cases ((fy' == fy) && same_series series' series)) [
      | inl hit ↦
          let v = next_value_hit fy fy' series series' seqs hit in
          rw hit (
            ap₂ (λ (n : ℕ) (l : List ℕ). n ∷ l) v.0
              (issued-consecutive fy series calls (next_value fy' series' seqs).1
                ∙ ap (λ (n : ℕ). consecutive n fy series calls) v.1))
      | inr miss ↦ rw miss (
          issued-consecutive fy series calls (next_value fy' series' seqs).1
          ∙ ap (λ (n : ℕ). consecutive n fy series calls)
              (next_value-other fy' fy series' series seqs miss))
    ]
