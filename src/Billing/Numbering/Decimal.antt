-- ===== src/Billing/Numbering/Decimal.antt =====
-- `toString()` and `padStart(width, '0')` of a number, and the number that a text of digits stands for.
use saas_frontend.Base.{
  ℕ, zero, suc, ◌+◌, ◌-◌, ◌*◌, ◌/◌, ◌%◌, ◌<◌, ◌≡◌, refl, ◌∙◌, List, [], ◌∷◌, ◌++◌, arith, ltb,
  if◌then◌else◌, Bool-cases, inl, inr, length,
}

-- The digits of `n`, given more fuel than `n`.
pub digits_fuel : ℕ → ℕ → List ℕ
digits_fuel zero n = []
digits_fuel (suc f) n =
    let more = digits_fuel f (n / 10) ++ (n % 10 + 48) ∷ [] in
    if ltb n 10 then (n + 48) ∷ [] else more

unfoldable pub to_string : ℕ → List ℕ
unfolding digits_fuel
to_string n = digits_fuel (suc n) n

pub zeros : ℕ → List ℕ
zeros zero = []
zeros (suc n) = 48 ∷ zeros n

unfoldable pub pad_start : ℕ → List ℕ → List ℕ
unfolding zeros
pad_start width s = zeros (width - length s) ++ s

-- The value of a text of digits behind one of value `acc`.
abbrev pub value_from : ℕ → List ℕ → ℕ
value_from acc [] = acc
value_from acc (c ∷ s) = value_from (acc * 10 + (c - 48)) s

value_from-append :
    (acc : ℕ) (s t : List ℕ) → value_from acc (s ++ t) ≡ value_from (value_from acc s) t
value_from-append acc [] t = refl
value_from-append acc (c ∷ s) t = value_from-append (acc * 10 + (c - 48)) s t

value-digits_fuel : (f n : ℕ) → n < f → value_from 0 (digits_fuel f n) ≡ n
unfolding digits_fuel
value-digits_fuel zero n h = elim h [ ]
value-digits_fuel (suc f) n h = elim (Bool-cases (ltb n 10)) [
  | inl small ↦ rw small (omega arith)
  | inr large ↦
      rw
        (
          large,
          value_from-append 0 (digits_fuel f (n / 10)) ((n % 10 + 48) ∷ []),
          value-digits_fuel f (n / 10) (ground arith),
        )
        (omega arith)
]

value-zeros : (k : ℕ) (s : List ℕ) → value_from 0 (zeros k ++ s) ≡ value_from 0 s
unfolding zeros
value-zeros zero s = refl
value-zeros (suc k) s = value-zeros k s

-- Reading a padded number back gives the number.
pub value-pad_start : (width n : ℕ) → value_from 0 (pad_start width (to_string n)) ≡ n
unfolding pad_start to_string
value-pad_start width n =
    value-zeros (width - length (to_string n)) (to_string n)
    ∙ value-digits_fuel (suc n) n (omega arith)
