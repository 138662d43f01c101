-- ===== src/Rates/Tests.antt =====
-- Two couriers and the margins on their rates, and instances of the theorems.
use mathlib.Core.List.{Memᴰ}
use saas_frontend.Base.{
  ℕ, Bool, ◌+◌, ◌*◌, ◌/◌, ◌-◌, ◌≡◌, refl, true, false, none, some, [], ◌∷◌, map, ok, err, ◌==◌,
  if◌then◌else◌, arith, ◌⊎◌, All,
}
use saas_frontend.Base.Text.{codes}
use saas_frontend.Status.Orders.{processing}
use saas_frontend.Shipping.{Order}
use saas_frontend.Rates.Margins.{
  standard, all_tiers, flat, percentage, CarrierMarginConfig, Prices, with_margin, resolve_margin,
}
use saas_frontend.Rates.Configs.{MarginData, MarginTable, create_config}
use saas_frontend.Rates.Comparing.{
  AdapterRate, AdapterOutcome, fulfilled, rejected, Rate, RateTables, Market, compare_rates,
}
use saas_frontend.Rates.First.{create_config-foreign}
use saas_frontend.Rates.Chosen.{Applies, Yields, resolve_margin-chooses}

-- Five rupees for all, and a newer margin of 12.5 percent for the seller 2.
abbrev for_all : CarrierMarginConfig
for_all = record {
  id = 1;
  carrier_id = 5;
  seller_id = none;
  seller_tier = all_tiers;
  margin_type = flat;
  margin_value = 500;
  effective_from = 100;
  effective_until = none;
  created_at = 10;
}

abbrev for_two : CarrierMarginConfig
for_two = record {
  id = 2;
  carrier_id = 5;
  seller_id = some 2;
  seller_tier = all_tiers;
  margin_type = percentage;
  margin_value = 1250;
  effective_from = 120;
  effective_until = some 900;
  created_at = 20;
}

abbrev order : Order
order = record {
  id = 10;
  tenant_id = 1;
  order_reference = codes "R";
  pickup_address_id = 3;
  order_value = 100000;
  is_cod = false;
  cod_amount = none;
  weight_g = 500;
  status = processing;
}

abbrev rate : ℕ → ℕ → AdapterRate
rate service price = record { service_type = service; price = price; cod_charge = 0 }

abbrev ask : ℕ → Order → AdapterOutcome
ask p o = if p == 5 then fulfilled (rate 0 9001 ∷ rate 1 4503 ∷ []) else rejected (codes "TIMEOUT")

-- Prices in 10000 parts of a paisa. A product lies a part under its true value, as the double of
-- 20.04 * 1.125 does; the column rounds it down, and the request, which multiplies by 100 first, up.
abbrev doubles : Prices
doubles = record {
  of_paise = λ p. p * 10000;
  plus = λ a b. a + b;
  raised_by = λ p v. p * (10000 + v) / 10000 - 1;
  column = λ p. (p + 5000) / 10000;
  request = λ p. (p + 5001) / 10000;
}

abbrev market : Market
market = record { now = 1000; today = 200; expiry = 1800; prices = doubles; ask = ask }

abbrev tables : RateTables
tables = record {
  orders = order ∷ [];
  access =
      record { tenant_id = 1; courier_provider_id = 5; is_enabled = true }
      ∷ record { tenant_id = 1; courier_provider_id = 6; is_enabled = true }
      ∷ record { tenant_id = 1; courier_provider_id = 7; is_enabled = false }
      ∷ [];
  providers =
      record { id = 5; is_active = true }
      ∷ record { id = 6; is_active = true }
      ∷ record { id = 7; is_active = true }
      ∷ [];
  margins = for_two ∷ for_all ∷ [];
  quotes = [];
}

-- The margin of the other seller is on the prices of this one.
prices :
    (elim (compare_rates market 10 1 tables).0 [
      | ok c ↦ map (λ (r : Rate). r.price) c.rates
      | err e ↦ []
    ])
    ≡ 50658749 ∷ 101261249 ∷ []
unfolding compare_rates resolve_margin
prices = refl

-- At half a paisa the request of a rate may miss its quote.
abbrev at_half : ℕ → Bool
at_half price =
    let p = with_margin doubles price (some for_two) in doubles.column p == doubles.request p

missed : at_half 2004 ≡ false
missed = refl

resolve_margin-chooses_example :
    ((resolve_margin 5 2 standard 200 (for_all ∷ for_two ∷ []) ≡ none)
      × All (λ x. Applies 5 200 x → ⊥) (for_all ∷ for_two ∷ []))
    ⊎ ((r : CarrierMarginConfig) × (resolve_margin 5 2 standard 200 (for_all ∷ for_two ∷ [])
          ≡ some r)
        × Memᴰ r (for_all ∷ for_two ∷ [])
        × Applies 5 200 r
        × All (λ x. Applies 5 200 x → Yields 2 standard r x) (for_all ∷ for_two ∷ []))
resolve_margin-chooses_example = resolve_margin-chooses 5 2 standard 200 (for_all ∷ for_two ∷ [])

abbrev wanted : MarginData
wanted = record {
  carrier_id = 5;
  seller_id = some 2;
  seller_tier = none;
  margin_type = some percentage;
  margin_value = 1250;
  effective_from = none;
  effective_until = none;
}

abbrev table : MarginTable
table = record { configs = for_all ∷ []; next_id = 2 }

create_config-foreign_example :
    (c : CarrierMarginConfig) × (resolve_margin 5 1 standard 365
        (create_config 1000 200 wanted table).1.configs
      ≡ some c)
    × (c.id ≡ 2)
    × (c.seller_id ≡ some 2)
create_config-foreign_example =
    create_config-foreign 1000 200 365 1 2 standard wanted percentage table (omega arith) refl refl
      (λ e. ground (arith, e)) refl refl refl ((λ force. (refl, refl, omega arith)), tt)
