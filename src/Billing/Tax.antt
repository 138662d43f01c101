-- ===== src/Billing/Tax.antt =====
-- `calculateTax` (backend/src/services/taxCalculation.service.js). Money is in paise, and the rate in
-- hundredths of a percent. The code computes with doubles, whose product may lie on the other side of
-- half a paisa than the true one: what `Math.round(x * 100) / 100` makes of it is a parameter. Texts are
-- lists of character codes.
use Prim.Native.String.{String}
use saas_frontend.Base.{
  ℕ, ◌+◌, ◌*◌, ◌%◌, ◌^◌, ◌≤◌, ◌<◌, ◌≡◌, ◌⊎◌, Bool, true, false, List, [], ◌∷◌, Option, none, some,
  Result, ok, err, if◌then◌else◌,
}
use saas_frontend.Base.Text.{Text, codes, text_eq, lower_trim}
use saas_frontend.Base.Int.{ℤ, pos, negsuc}

-- `STATE_CODES`
abbrev pub state_codes : List (String × String)
state_codes =
    ("01", "Jammu and Kashmir")
    ∷ ("02", "Himachal Pradesh")
    ∷ ("03", "Punjab")
    ∷ ("04", "Chandigarh")
    ∷ ("05", "Uttarakhand")
    ∷ ("06", "Haryana")
    ∷ ("07", "Delhi")
    ∷ ("08", "Rajasthan")
    ∷ ("09", "Uttar Pradesh")
    ∷ ("10", "Bihar")
    ∷ ("11", "Sikkim")
    ∷ ("12", "Arunachal Pradesh")
    ∷ ("13", "Nagaland")
    ∷ ("14", "Manipur")
    ∷ ("15", "Mizoram")
    ∷ ("16", "Tripura")
    ∷ ("17", "Meghalaya")
    ∷ ("18", "Assam")
    ∷ ("19", "West Bengal")
    ∷ ("20", "Jharkhand")
    ∷ ("21", "Odisha")
    ∷ ("22", "Chhattisgarh")
    ∷ ("23", "Madhya Pradesh")
    ∷ ("24", "Gujarat")
    ∷ ("26", "Dadra and Nagar Haveli and Daman and Diu")
    ∷ ("27", "Maharashtra")
    ∷ ("29", "Karnataka")
    ∷ ("30", "Goa")
    ∷ ("31", "Lakshadweep")
    ∷ ("32", "Kerala")
    ∷ ("33", "Tamil Nadu")
    ∷ ("34", "Puducherry")
    ∷ ("35", "Andaman and Nicobar Islands")
    ∷ ("36", "Telangana")
    ∷ ("37", "Andhra Pradesh")
    ∷ ("38", "Ladakh")
    ∷ []

unfoldable pub state_name : Text → List (String × String) → Option Text
state_name c [] = none
state_name c ((k, v) ∷ m) = if text_eq (codes k) c then some (codes v) else state_name c m

-- `gstin.substring(0, 2)`
unfoldable pub prefix_2 : Text → Text
prefix_2 (a ∷ b ∷ s) = a ∷ b ∷ []
prefix_2 s = s

-- `billingGstin ? billingGstin.substring(0, 2) : '33'`: an empty text counts as missing.
unfoldable pub billing_state_code : Option Text → Text
unfolding prefix_2
billing_state_code none = codes "33"
billing_state_code (some []) = codes "33"
billing_state_code (some (a ∷ s)) = prefix_2 (a ∷ s)

-- `config.billing.entityState` stands in where the code is unknown.
unfoldable pub is_intra_state : Text → Option Text → Text → Bool
unfolding billing_state_code state_name lower_trim
is_intra_state entity_state gstin place_of_supply =
    text_eq
      (lower_trim (elim (state_name (billing_state_code gstin) state_codes) [
        | none ↦ entity_state
        | some name ↦ name
      ]))
      (lower_trim place_of_supply)

pub record Tax : Type 0 where
  pub subtotal : ℕ
  pub cgst_amount : ℕ
  pub sgst_amount : ℕ
  pub igst_amount : ℕ
  pub total_amount : ℕ
  pub intra_state : Bool

pub data TaxError : Type 0 where
  bad_subtotal : TaxError

-- The arithmetic of doubles, in paise: `Math.round(amt * gstRate * 100) / 100` for a rate in hundredths
-- of a percent, and `Math.round((total / 2) * 100) / 100`.
pub record TaxArithmetic : Type 0 where
  pub product : ℕ → ℕ → ℕ
  pub half : ℕ → ℕ

-- Ten thousand million rupees, which is more than a column for money holds.
abbrev pub max_paise : ℕ
max_paise = 10 ^ 12

-- What doubles of that size do: a product is off by less than a paisa, and a half of an odd number of
-- paise goes either way.
pub record IsDouble (fl : TaxArithmetic) : Type 0 where
  pub product_low :
      (amt rate : ℕ)
      → amt ≤ max_paise
      → rate ≤ 10000
      → amt * rate < (fl.product amt rate + 1) * 10000
  pub product_high :
      (amt rate : ℕ)
      → amt ≤ max_paise
      → rate ≤ 10000
      → fl.product amt rate * 10000 < amt * rate + 10000
  pub half_low : (n : ℕ) → n ≤ max_paise → n ≤ 2 * fl.half n + 1
  pub half_high : (n : ℕ) → n ≤ max_paise → 2 * fl.half n ≤ n + 1

-- The split, once it is known whether both are in one state. Sums of whole paise are exact.
unfoldable pub split : TaxArithmetic → Bool → ℕ → ℕ → Tax
split fl intra amt rate =
    let total_gst = fl.product amt rate in
    let cgst : ℕ = if intra then fl.half total_gst else 0 in
    let sgst : ℕ = if intra then fl.half total_gst else 0 in
    let igst : ℕ = if intra then 0 else total_gst in
    record {
      subtotal = amt;
      cgst_amount = cgst;
      sgst_amount = sgst;
      igst_amount = igst;
      total_amount = amt + cgst + sgst + igst;
      intra_state = intra;
    }

-- A subtotal that is `NaN` is `none`.
unfoldable pub calculate_tax :
    TaxArithmetic → Text → ℕ → Option ℤ → Option Text → Text → Result TaxError Tax
calculate_tax fl entity_state rate none gstin place = err bad_subtotal
calculate_tax fl entity_state rate (some (negsuc n)) gstin place = err bad_subtotal
calculate_tax fl entity_state rate (some (pos amt)) gstin place =
    ok (split fl (is_intra_state entity_state gstin place) amt rate)

-- The parts of a bill for a tax of `gst`.
abbrev pub AddsUp : ℕ → ℕ → Bool → Tax → Type 0
AddsUp amt gst intra t =
    (t.subtotal ≡ amt)
    × (t.cgst_amount ≡ t.sgst_amount)
    × ((t.igst_amount ≡ 0) ⊎ (t.cgst_amount ≡ 0))
    × (t.total_amount ≡ amt + t.cgst_amount + t.sgst_amount + t.igst_amount)
    × (intra ≡ false → (t.igst_amount ≡ gst) × (t.total_amount ≡ amt + gst))
    × (intra ≡ true → (t.igst_amount ≡ 0) × (gst % 2 ≡ 0 → t.total_amount ≡ amt + gst))
    × (t.total_amount ≤ amt + gst + 1)
    × (amt + gst ≤ t.total_amount + 1)
