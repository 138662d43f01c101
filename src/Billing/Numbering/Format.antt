-- ===== src/Billing/Numbering/Format.antt =====
-- Two numbers of a series are printed differently.
use saas_frontend.Base.{ℕ, ◌≡◌, ap, sym, ◌∙◌, [], ◌∷◌, ◌++◌}
use saas_frontend.Base.Text.{Text}
use saas_frontend.Billing.Numbering.Decimal.{to_string, pad_start, value_from, value-pad_start}
use saas_frontend.Billing.Numbering.Defs.{format_number}

pub drop_prefix : (p s t : Text) → p ++ s ≡ p ++ t → s ≡ t
drop_prefix [] s t e = e
drop_prefix (c ∷ p) s t e = drop_prefix p s t (cc)

pub pad_start-injective : (n m : ℕ) → pad_start 6 (to_string n) ≡ pad_start 6 (to_string m) → n ≡ m
pad_start-injective n m e = sym (value-pad_start 6 n) ∙ ap (value_from 0) e ∙ value-pad_start 6 m

-- Two documents with one prefix and one financial year bear the same number only if they are the
-- same in the series, also past six digits.
pub format_number-injective :
    (pre fy : Text) (n m : ℕ) → format_number pre fy n ≡ format_number pre fy m → n ≡ m
unfolding format_number
format_number-injective pre fy n m e =
    let tail = drop_prefix pre _ _ e in
    let rest = drop_prefix fy _ _ (drop_prefix (b'/' ∷ []) _ _ tail) in
    pad_start-injective n m (drop_prefix (b'/' ∷ []) _ _ rest)
