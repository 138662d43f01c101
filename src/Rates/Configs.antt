-- ===== src/Rates/Configs.antt =====
-- A margin is created by an admin of the platform.
use saas_frontend.Base.{
  ℕ, ◌+◌, Option, none, some, List, ◌∷◌, Action, pure, gets, or_throw, modify, ◌>>=◌, ◌>>◌,
}
use saas_frontend.Rates.Margins.{SellerTier, all_tiers, MarginType, CarrierMarginConfig}

-- What the admin gives; a margin type that is none of the two is `none`.
pub record MarginData : Type 0 where
  pub carrier_id : ℕ
  pub seller_id : Option ℕ
  pub seller_tier : Option SellerTier
  pub margin_type : Option MarginType
  pub margin_value : ℕ
  pub effective_from : Option ℕ
  pub effective_until : Option ℕ

pub record MarginTable : Type 0 where
  pub configs : List CarrierMarginConfig
  pub next_id : ℕ

pub data MarginError : Type 0 where
  invalid_margin_type : MarginError

-- `value || default`
abbrev pub or_else {ℓ} : {A : Type ℓ} → Option A → A → A
or_else none default = default
or_else (some a) default = a

-- `createConfig`: a margin for one seller is one for all tiers, unless a tier is given.
unfoldable pub create_config : ℕ → ℕ → MarginData → Action MarginTable MarginError ℕ
create_config now today d = do
  margin_type ← or_throw d.margin_type invalid_margin_type
  id ← gets (λ t. t.next_id)
  modify (λ t. record t {
    configs =
        record {
          id = id;
          carrier_id = d.carrier_id;
          seller_id = d.seller_id;
          seller_tier = or_else d.seller_tier all_tiers;
          margin_type = margin_type;
          margin_value = d.margin_value;
          effective_from = or_else d.effective_from today;
          effective_until = d.effective_until;
          created_at = now;
        }
        ∷ t.configs;
    next_id = t.next_id + 1;
  })
  pure id
