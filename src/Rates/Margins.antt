-- ===== src/Rates/Margins.antt =====
-- The rows of margins, which of them applies, and what it makes of a price. Days are numbers, values are in
-- paise or in hundredths of a percent. A price with a margin is a double, which is a whole number of
-- parts of some small size: the arithmetic of doubles, and what becomes of one with two decimals, are
-- parameters.
use saas_frontend.Base.{
  ℕ, Bool, true, false, ◌&&◌, ◌||◌, Option, none, some, List, [], ◌∷◌, ◌==◌, leb, ltb,
  if◌then◌else◌,
}

-- `ENUM`s of the columns `seller_tier` and `margin_type`
pub data SellerTier : Type 0 where
  standard growth enterprise all_tiers : SellerTier

pub data MarginType : Type 0 where
  flat percentage : MarginType

pub record CarrierMarginConfig : Type 0 where
  pub id : ℕ
  pub carrier_id : ℕ
  pub seller_id : Option ℕ
  pub seller_tier : SellerTier
  pub margin_type : MarginType
  pub margin_value : ℕ
  pub effective_from : ℕ
  pub effective_until : Option ℕ
  pub created_at : ℕ

abbrev pub lasts : ℕ → Option ℕ → Bool
lasts today none = true
lasts today (some until) = leb today until

-- `where`
abbrev pub is_in_force : ℕ → ℕ → CarrierMarginConfig → Bool
is_in_force carrier today c =
    (c.carrier_id == carrier) && (leb c.effective_from today && lasts today c.effective_until)

abbrev pub is_seller : ℕ → Option ℕ → Bool
is_seller seller none = false
is_seller seller (some id) = id == seller

abbrev pub tier_code : SellerTier → ℕ
tier_code standard = 0
tier_code growth = 1
tier_code enterprise = 2
tier_code all_tiers = 3

abbrev pub same_tier : SellerTier → SellerTier → Bool
same_tier a b = tier_code a == tier_code b

-- `CASE WHEN ... END`
abbrev pub rank : ℕ → SellerTier → CarrierMarginConfig → ℕ
rank seller tier c =
    if is_seller seller c.seller_id
    then 1
    else (if same_tier c.seller_tier tier
        then 2
        else (if same_tier c.seller_tier all_tiers then 3 else 4))

-- `order`: by the rank, and the newest first
abbrev pub is_before : ℕ → ℕ → ℕ → ℕ → Bool
is_before rank_a created_a rank_b created_b =
    ltb rank_a rank_b || ((rank_a == rank_b) && ltb created_b created_a)

abbrev pub comes_before : ℕ → SellerTier → CarrierMarginConfig → CarrierMarginConfig → Bool
comes_before seller tier a b =
    is_before (rank seller tier a) a.created_at (rank seller tier b) b.created_at

-- `configs[0]` of the rows in their order, of which one has been read
abbrev pub first_of :
    ℕ → SellerTier → ℕ → ℕ → CarrierMarginConfig → List CarrierMarginConfig → CarrierMarginConfig
first_of seller tier carrier today c [] = c
first_of seller tier carrier today c (x ∷ xs) =
    first_of seller tier carrier today
      (if is_in_force carrier today x && comes_before seller tier x c then x else c) xs

-- `resolveMargin` of the repository
unfoldable pub resolve_margin :
    ℕ → ℕ → SellerTier → ℕ → List CarrierMarginConfig → Option CarrierMarginConfig
resolve_margin carrier seller tier today [] = none
resolve_margin carrier seller tier today (c ∷ cs) =
    let rest = resolve_margin carrier seller tier today cs in
    if is_in_force carrier today c then some (first_of seller tier carrier today c cs) else rest

-- The arithmetic of prices: a price in paise as a double, the sum of two, the percentage of one, and
-- how the column `DECIMAL(10, 2)` and the check of a request (`precision(2)`) round to paise. The last
-- two need not agree: the one rounds the decimals of the double, the other a product.
pub record Prices : Type 0 where
  pub of_paise : ℕ → ℕ
  pub plus : ℕ → ℕ → ℕ
  pub raised_by : ℕ → ℕ → ℕ
  pub column : ℕ → ℕ
  pub request : ℕ → ℕ

-- `applyMargin`
abbrev pub with_margin : Prices → ℕ → Option CarrierMarginConfig → ℕ
with_margin p price none = p.of_paise price
with_margin p price (some c) = elim c.margin_type [
  | flat ↦ p.plus (p.of_paise price) (p.of_paise c.margin_value)
  | percentage ↦ p.raised_by (p.of_paise price) c.margin_value
]
