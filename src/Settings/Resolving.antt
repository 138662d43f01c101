-- ===== src/Settings/Resolving.antt =====
-- The cache of the platform's settings, and the resolution over the three tiers.
use saas_frontend.Base.{
  ℕ, ◌+◌, ◌||◌, not, Option, none, some, List, [], ◌∷◌, ◌==◌, ltb, if◌then◌else◌, find_one,
}
use saas_frontend.Base.Text.{Text, text_eq}
use saas_frontend.Settings.Defs.{
  Key, Value, TenantSetting, Cache, Settings, Environment, SettingSource, tenant_override,
  platform_default, env_fallback, env_fallbacks, platform_key, override_of, values_of,
}

-- `CACHE_TTL_MS`
abbrev pub cache_ttl : ℕ
cache_ttl = 300000

abbrev pub refill : Environment → ℕ → Settings → List (Text × Value) × Settings
refill w now s =
    let values = values_of w s.platform in
    (values, record s { cache = some (record { values = values; populated_at = now }) })

-- The cache as it was found; a time of 0 counts as none.
abbrev pub map_from : Environment → ℕ → Option Cache → Settings → List (Text × Value) × Settings
map_from w now none s = refill w now s
map_from w now (some c) s =
    if (c.populated_at == 0) || not (ltb now (c.populated_at + cache_ttl))
    then refill w now s
    else (c.values, s)

-- `_getPlatformSettingsMap`
abbrev pub get_platform_settings_map : Environment → ℕ → Settings → List (Text × Value) × Settings
get_platform_settings_map w now s = map_from w now s.cache s

abbrev pub lookup : Text → List (Text × Value) → Option Value
lookup name [] = none
lookup name ((key, value) ∷ rest) = if text_eq key name then some value else lookup name rest

abbrev pub tenant_row : ℕ → Settings → Option TenantSetting
tenant_row tenant s = find_one (λ r. r.tenant_id == tenant) s.tenants

-- Tier 1.
abbrev pub tenant_value : Option ℕ → Key → Settings → Option Value
tenant_value none key s = none
tenant_value (some tenant) key s = elim (tenant_row tenant s) [
  | none ↦ none
  | some row ↦ override_of key row
]

-- Tier 2, which reads the cache.
abbrev pub platform_value : Environment → ℕ → Option Text → Settings → Option Value × Settings
platform_value w now none s = (none, s)
platform_value w now (some name) s =
    let (values, s') = get_platform_settings_map w now s in (lookup name values, s')

-- Tier 3, and the answer for a key that nothing names.
abbrev pub last_resort : Option Value → Option Value × SettingSource
last_resort value = (value, env_fallback)

abbrev pub below_tenant :
    Environment → Key → Option Value × Settings → (Option Value × SettingSource) × Settings
below_tenant w key (some value, s) = ((some value, platform_default), s)
below_tenant w key (none, s) = (last_resort (env_fallbacks w key), s)

-- `getEffectiveSetting`
unfoldable pub get_effective_setting :
    Environment → ℕ → Option ℕ → Key → Settings → (Option Value × SettingSource) × Settings
get_effective_setting w now tenant key s = elim (tenant_value tenant key s) [
  | some value ↦ ((some value, tenant_override), s)
  | none ↦ below_tenant w key (platform_value w now (platform_key key) s)
]
