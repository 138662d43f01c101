-- ===== src/Rates/Quoted.antt =====
-- What is answered can be booked, and the cheapest comes first.
use saas_frontend.Base.{ℕ, ◌≤◌, ◌≡◌, Bool, true, List, [], ◌∷◌, find_one, is_some}
use saas_frontend.Base.Int.{pos}
use saas_frontend.Shipping.{RateQuote, Request, matches_quote}
use saas_frontend.Rates.Margins.{Prices}
use saas_frontend.Rates.Comparing.{Rate}

-- The request of a booking at an answered rate, for a rounding of its price to paise.
abbrev pub booking_of : (ℕ → ℕ) → ℕ → Rate → Request
booking_of rounded order r = record {
  order_id = order;
  courier_provider_id = r.courier_provider_id;
  service_type = r.service_type;
  quoted_rate = pos (rounded r.price);
}

abbrev pub has_quote : (ℕ → ℕ) → ℕ → List RateQuote → Rate → Bool
has_quote rounded order quotes r =
    is_some (find_one (matches_quote (booking_of rounded order r)) quotes)

-- A booking finds a quote at the price that the column holds, and so does one that is made at the rate,
-- as its request rounds it, where the two roundings agree.
abbrev pub IsQuoted : Prices → ℕ → List RateQuote → Rate → Type 0
IsQuoted p order quotes r =
    (has_quote p.column order quotes r ≡ true)
    × (p.request r.price ≡ p.column r.price → has_quote p.request order quotes r ≡ true)

abbrev Fits : Prices → ℕ → RateQuote × Rate → Type 0
Fits p order x = matches_quote (booking_of p.column order x.1) x.0 ≡ true

-- The cheapest first
abbrev pub Ascending : ℕ → List Rate → Type 0
Ascending least [] = Unit
Ascending least (r ∷ rs) = (least ≤ r.price) × Ascending r.price rs
