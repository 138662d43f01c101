-- ===== src/Rates/Comparing.antt =====
-- The comparison of rates. What comes of asking a courier, from the check of its health to its answer or
-- the timeout, is a parameter.
use saas_frontend.Base.{
  ℕ, ◌+◌, Bool, false, ◌&&◌, ◌||◌, not, none, some, List, [], ◌∷◌, ◌++◌, map, Action, pure, gets,
  or_throw, throw_if, modify, ◌>>=◌, ◌>>◌, ◌==◌, ltb, if◌then◌else◌, find_one,
}
use saas_frontend.Base.Int.{pos}
use saas_frontend.Base.Text.{Text}
use saas_frontend.Status.Orders.{OrderStatus, processing, ready_to_ship, same_status}
use saas_frontend.Shipping.{Order, RateQuote, CourierProvider}
use saas_frontend.Rates.Margins.{standard, CarrierMarginConfig, resolve_margin, Prices, with_margin}

-- A row of `tenant_courier_access`.
pub record AccessRow : Type 0 where
  pub tenant_id : ℕ
  pub courier_provider_id : ℕ
  pub is_enabled : Bool

-- A rate of an adapter.
pub record AdapterRate : Type 0 where
  pub service_type : ℕ
  pub price : ℕ
  pub cod_charge : ℕ

pub data AdapterOutcome : Type 0 where
  fulfilled : List AdapterRate → AdapterOutcome
  rejected : Text → AdapterOutcome

-- An entry of `rates`.
pub record Rate : Type 0 where
  pub courier_provider_id : ℕ
  pub service_type : ℕ
  pub price : ℕ
  pub base_price : ℕ
  pub cod_charge : ℕ

pub record Comparison : Type 0 where
  pub rates : List Rate
  pub quote_expires_at : ℕ
  pub unavailable_providers : List (ℕ × Text)

pub record RateTables : Type 0 where
  pub orders : List Order
  pub access : List AccessRow
  pub providers : List CourierProvider
  pub margins : List CarrierMarginConfig
  pub quotes : List RateQuote

-- The clock, the seconds for which a quote is good, and the couriers.
pub record Market : Type 0 where
  pub now : ℕ
  pub today : ℕ
  pub expiry : ℕ
  pub prices : Prices
  pub ask : ℕ → Order → AdapterOutcome

pub data Error : Type 0 where
  order_not_found order_not_shippable : Error

abbrev pub Call : Type 0 → Type 0
Call A = Action RateTables Error A

abbrev pub is_active : ℕ → List CourierProvider → Bool
is_active id ps = elim (find_one (λ p. p.id == id) ps) [ none ↦ false | some p ↦ p.is_active ]

-- `listByTenant`
abbrev pub active_providers : ℕ → List CourierProvider → List AccessRow → List ℕ
active_providers tenant ps [] = []
active_providers tenant ps (a ∷ rows) =
    let rest = active_providers tenant ps rows in
    if (a.tenant_id == tenant) && (a.is_enabled && is_active a.courier_provider_id ps)
    then a.courier_provider_id ∷ rest
    else rest

-- A rate with its margin: the quote that is stored, and the entry that is answered.
abbrev pub priced :
    Market → ℕ → Order → List CarrierMarginConfig → ℕ → AdapterRate → RateQuote × Rate
priced w tenant order margins provider r =
    let price =
      with_margin w.prices r.price (resolve_margin provider tenant standard w.today margins) in
    (
      record {
        order_id = order.id;
        courier_provider_id = provider;
        service_type = r.service_type;
        price = pos (w.prices.column price);
        cod_charge = r.cod_charge;
        expires_at = w.now + w.expiry;
      },
      record {
        courier_provider_id = provider;
        service_type = r.service_type;
        price = price;
        base_price = r.price;
        cod_charge = r.cod_charge;
      },
    )

abbrev pub priced_in :
    Market → ℕ → Order → List CarrierMarginConfig → ℕ → AdapterOutcome → List (RateQuote × Rate)
priced_in w tenant order margins provider (fulfilled rs) =
    map (priced w tenant order margins provider) rs
priced_in w tenant order margins provider (rejected reason) = []

-- Step 4, over the couriers
abbrev pub price_all :
    Market → ℕ → Order → List CarrierMarginConfig → List ℕ → List (RateQuote × Rate)
price_all w tenant order margins [] = []
price_all w tenant order margins (p ∷ ps) =
    priced_in w tenant order margins p (w.ask p order) ++ price_all w tenant order margins ps

abbrev pub unavailable : Market → Order → List ℕ → List (ℕ × Text)
unavailable w order [] = []
unavailable w order (p ∷ ps) =
    let rest = unavailable w order ps in
    elim (w.ask p order) [ fulfilled rs ↦ rest | rejected reason ↦ (p, reason) ∷ rest ]

-- `rates.sort((a, b) => a.price - b.price)`, which is stable.
abbrev pub insert_rate : Rate → List Rate → List Rate
insert_rate r [] = r ∷ []
insert_rate r (x ∷ xs) =
    let rest = insert_rate r xs in if ltb r.price x.price then r ∷ x ∷ xs else x ∷ rest

abbrev pub sort_rates : List Rate → List Rate → List Rate
sort_rates sorted [] = sorted
sort_rates sorted (r ∷ rs) = sort_rates (insert_rate r sorted) rs

abbrev pub is_shippable : OrderStatus → Bool
is_shippable status = same_status status processing || same_status status ready_to_ship

abbrev pub answer_for : Market → ℕ → Order → RateTables → Comparison × RateTables
answer_for w tenant order t =
    let providers = active_providers tenant t.providers t.access in
    let found = price_all w tenant order t.margins providers in
    (
      record {
        rates = sort_rates [] (map (λ x. x.1) found);
        quote_expires_at = w.now + w.expiry;
        unavailable_providers = unavailable w order providers;
      },
      record t { quotes = map (λ x. x.0) found ++ t.quotes },
    )

-- `compareRates`
unfoldable pub compare_rates : Market → ℕ → ℕ → Call Comparison
compare_rates w id tenant = do
  order ←
      or_throw (← gets (λ t. find_one (λ o. (o.id == id) && (o.tenant_id == tenant)) t.orders))
        order_not_found
  throw_if (not (is_shippable order.status)) order_not_shippable
  answer ← gets (λ t. answer_for w tenant order t)
  modify (λ t. answer.1)
  pure answer.0
