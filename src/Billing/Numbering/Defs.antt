-- ===== src/Billing/Numbering/Defs.antt =====
-- `getFinancialYear`, the counters, and `generateNextNumber`.
use saas_frontend.Base.{
  ℕ, ◌+◌, ◌-◌, Bool, true, false, ◌&&◌, Option, none, some, List, [], ◌∷◌, ◌++◌, ok, err, Action,
  ◌==◌, leb, if◌then◌else◌, find_one, update_where,
}
use saas_frontend.Base.Text.{Text, codes, trim, trim_upper}
use saas_frontend.Billing.Numbering.Decimal.{to_string, pad_start}

-- The year in which the financial year of a date begins; months count from 0, as `getMonth()` does.
unfoldable pub financial_year_start : ℕ → ℕ → ℕ
financial_year_start year month = if leb 3 month then year else year - 1

-- `s.substring(2, 4)`
abbrev pub middle_2 : List ℕ → List ℕ
middle_2 (a ∷ b ∷ c ∷ d ∷ s) = c ∷ d ∷ []
middle_2 (a ∷ b ∷ s) = s
middle_2 s = []

-- `getFinancialYear`: `2026-27`
unfoldable pub financial_year : ℕ → ℕ → Text
unfolding to_string
financial_year year month =
    if leb 3 month
    then to_string year ++ b'-' ∷ middle_2 (to_string (year + 1))
    else to_string (year - 1) ++ b'-' ∷ middle_2 (to_string year)

-- `'invoice' | 'credit_note'`
pub data Series : Type 0 where
  invoice credit_note : Series

abbrev pub same_series : Series → Series → Bool
same_series invoice invoice = true
same_series credit_note credit_note = true
same_series _ _ = false

-- A row of `InvoiceSequence`. The financial year is known by the year in which it begins.
pub record Sequence : Type 0 where
  pub financial_year : ℕ
  pub series_key : Series
  pub last_number : ℕ

abbrev pub is_key : ℕ → Series → Sequence → Bool
is_key fy series s = (s.financial_year == fy) && same_series s.series_key series

-- Steps 1 and 2: find or create the counter, and increment it.
unfoldable pub next_value : ℕ → Series → List Sequence → ℕ × List Sequence
next_value fy series seqs = elim (find_one (is_key fy series) seqs) [
  | none ↦ (1, record { financial_year = fy; series_key = series; last_number = 1 } ∷ seqs)
  | some s ↦ (
    s.last_number + 1,
    update_where (is_key fy series) (λ r. record r { last_number = s.last_number + 1 }) seqs,
  )
]

-- The prefix: a tenant's setting, in capitals with the blanks taken off, for its invoices.
unfoldable pub prefix : Series → Option Text → Text
unfolding trim trim_upper
prefix credit_note setting = codes "CN"
prefix invoice none = codes "INV"
prefix invoice (some value) = elim (trim value) [ [] ↦ codes "INV" | c ∷ s ↦ trim_upper value ]

-- Step 3: `${prefix}/${fy}/${padded}`
unfoldable pub format_number : Text → Text → ℕ → Text
unfolding to_string pad_start
format_number pre fy n = pre ++ b'/' ∷ (fy ++ b'/' ∷ pad_start 6 (to_string n))

-- `generateNextNumber` on a date, with the invoice prefix that the settings give the tenant, if there
-- is a tenant. It wants a transaction.
pub data NumberError : Type 0 where
  no_transaction : NumberError

unfoldable pub generate_next_number :
    Bool → ℕ → ℕ → Series → Option Text → Action (List Sequence) NumberError Text
unfolding format_number financial_year prefix next_value financial_year_start
generate_next_number false year month series setting seqs = (err no_transaction, seqs)
generate_next_number true year month series setting seqs =
    let (n, seqs') = next_value (financial_year_start year month) series seqs in
    (ok (format_number (prefix series setting) (financial_year year month) n), seqs')
