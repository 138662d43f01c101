-- ===== src/Settings/Cached.antt =====
-- The cache never shows: what a setting resolves to.
use saas_frontend.Base.{
  ℕ, ◌≡◌, refl, sym, subst, ap, ◌∙◌, inl, inr, true, ◌||◌, not, Option, none, some, List, [], ◌∷◌,
  ok, ◌==◌, ltb, find_one, update_where, Option-cases, Bool-cases, ◌+◌,
}
use mathlib.Core.Option.{some-injective}
use saas_frontend.Base.Text.{Text, text_eq}
use saas_frontend.Settings.Defs.{
  Key, Value, PlatformSetting, Settings, Cache, Environment, SettingSource, tenant_override,
  platform_default, env_fallback, env_fallbacks, platform_key, coerce_value, values_of,
}
use saas_frontend.Settings.Resolving.{
  cache_ttl, map_from, lookup, tenant_value, platform_value, below_tenant, get_effective_setting,
}
use saas_frontend.Settings.Updating.{
  update_tenant_settings, update_platform_setting, platform_row, write_platform_setting,
  is_valid_value,
}

-- What a key resolves to, by the tables alone: the tenant's override, the platform's value, or the
-- fallback.
abbrev pub resolve_platform : Environment → Option Text → Settings → Option Value
resolve_platform w none s = none
resolve_platform w (some name) s = lookup name (values_of w s.platform)

abbrev pub or_fallback : Environment → Key → Option Value → Option Value × SettingSource
or_fallback w key (some value) = (some value, platform_default)
or_fallback w key none = (env_fallbacks w key, env_fallback)

abbrev pub resolve : Environment → Option ℕ → Key → Settings → Option Value × SettingSource
resolve w tenant key s = elim (tenant_value tenant key s) [
  | some value ↦ (some value, tenant_override)
  | none ↦ or_fallback w key (resolve_platform w (platform_key key) s)
]

resolve_bare :
    (w : Environment) (tenant : Option ℕ) (key : Key) (s : Settings)
    → tenant_value tenant key s ≡ none
    → resolve w tenant key s ≡ or_fallback w key (resolve_platform w (platform_key key) s)
resolve_bare w tenant key s bare = rw (resolve, bare) refl

-- A cache that is filled holds what the table holds.
abbrev pub CacheIsFresh : Environment → List PlatformSetting → Option Cache → Type 0
CacheIsFresh w rows none = Unit
CacheIsFresh w rows (some c) = c.values ≡ values_of w rows

abbrev pub IsFresh : Environment → Settings → Type 0
IsFresh w s = CacheIsFresh w s.platform s.cache

-- A read of the map gives the table's values, and leaves a cache that holds them.
map_from_lem :
    (w : Environment) (now : ℕ) (c : Option Cache) (s : Settings)
    → CacheIsFresh w s.platform c
    → IsFresh w s
    → let (values, s') = map_from w now c s in (values ≡ values_of w s.platform) × IsFresh w s'
map_from_lem w now none s fresh kept = (refl, refl)
map_from_lem w now (some c) s fresh kept =
    elim (Bool-cases ((c.populated_at == 0) || not (ltb now (c.populated_at + cache_ttl)))) [
      | inl old ↦ rw old (refl, refl)
      | inr young ↦ rw young (fresh, kept)
    ]

platform_value_lem :
    (w : Environment) (now : ℕ) (name : Option Text) (s : Settings)
    → IsFresh w s
    → let (value, s') = platform_value w now name s in
      (value ≡ resolve_platform w name s) × IsFresh w s'
platform_value_lem w now none s fresh = (refl, fresh)
platform_value_lem w now (some name) s fresh =
    let (values, kept) = map_from_lem w now s.cache s fresh fresh in (ap (lookup name) values, kept)

below_tenant_lem :
    (w : Environment) (key : Key) (z : Option Value × Settings)
    → ((below_tenant w key z).0 ≡ or_fallback w key z.0) × ((below_tenant w key z).1 ≡ z.1)
below_tenant_lem w key (some value, s) = (refl, refl)
below_tenant_lem w key (none, s) = (refl, refl)

get_effective_setting_lem :
    (w : Environment) (now : ℕ) (tenant : Option ℕ) (key : Key) (s : Settings)
    → IsFresh w s
    → let (answer, s') = get_effective_setting w now tenant key s in
      (answer ≡ resolve w tenant key s) × IsFresh w s'
unfolding get_effective_setting
get_effective_setting_lem w now tenant key s fresh =
    elim (Option-cases (tenant_value tenant key s)) [
      | inr (value, found) ↦ rw (get_effective_setting, found) (rw (resolve, found) refl, fresh)
      | inl nothing ↦
          let z = platform_value w now (platform_key key) s in
          let (value, kept) = platform_value_lem w now (platform_key key) s fresh in
          let (answer, state) = below_tenant_lem w key z in
          rw (get_effective_setting, nothing)
            (
              answer ∙ ap (or_fallback w key) value ∙ sym (resolve_bare w tenant key s nothing),
              rw state kept,
            )
    ]

update_platform-IsFresh :
    (w : Environment) (name value : Text) (admin : ℕ) (s : Settings)
    → IsFresh w s
    → IsFresh w (update_platform_setting w name value admin s).1
unfolding update_platform_setting
update_platform-IsFresh w name value admin s fresh = elim (Option-cases (platform_row name s)) [
  | inl missing ↦ rw (update_platform_setting, missing) fresh
  | inr (old, found) ↦ elim (Bool-cases (is_valid_value w old.value_type value)) [
    | inl valid ↦ rw (update_platform_setting, found, valid) tt
    | inr invalid ↦ rw (update_platform_setting, found, invalid) fresh
  ]
]

-- The calls of the service that write, and the read that fills the cache.
pub data Op : Type 0 where
  reads : ℕ → Option ℕ → Key → Op
  updates_tenant : ℕ → ℕ → List (Key × Option Value) → Op
  updates_platform : Text → Text → ℕ → Op

abbrev pub step : Environment → Op → Settings → Settings
step w (reads now tenant key) s = (get_effective_setting w now tenant key s).1
step w (updates_tenant tenant user updates) s = update_tenant_settings tenant user updates s
step w (updates_platform name value admin) s = (update_platform_setting w name value admin s).1

abbrev pub run : Environment → List Op → Settings → Settings
run w [] s = s
run w (op ∷ ops) s = run w ops (step w op s)

run-IsFresh :
    (w : Environment) (ops : List Op) (s : Settings) → IsFresh w s → IsFresh w (run w ops s)
unfolding update_tenant_settings
run-IsFresh w [] s fresh = fresh
run-IsFresh w (reads now tenant key ∷ ops) s fresh =
    run-IsFresh w ops _ (get_effective_setting_lem w now tenant key s fresh).1
run-IsFresh w (updates_tenant tenant user updates ∷ ops) s fresh = run-IsFresh w ops _ fresh
run-IsFresh w (updates_platform name value admin ∷ ops) s fresh =
    run-IsFresh w ops _ (update_platform-IsFresh w name value admin s fresh)

-- From an empty cache, and after any reads and updates that come one after another through the
-- service of one process, a setting is what the tables say at that time, however old the cache is:
-- the tenant's override, else the platform's value, else the fallback.
pub get_effective_setting-resolve :
    (w : Environment) (ops : List Op) (now : ℕ) (tenant : Option ℕ) (key : Key) (s : Settings)
    → s.cache ≡ none
    → let s' = run w ops s in
      (get_effective_setting w now tenant key s').0 ≡ resolve w tenant key s'
get_effective_setting-resolve w ops now tenant key s empty =
    let fresh : IsFresh w s = subst (CacheIsFresh w s.platform) (sym empty) tt in
    (get_effective_setting_lem w now tenant key (run w ops s) (run-IsFresh w ops s fresh)).0

lookup_written :
    (w : Environment) (name value : Text) (admin : ℕ) (rows : List PlatformSetting)
    (old : PlatformSetting)
    → find_one (λ (r : PlatformSetting). text_eq r.setting_key name) rows ≡ some old
    → lookup name (
        values_of w (
          update_where
            (λ (r : PlatformSetting). text_eq r.setting_key name)
            (λ r. record r { setting_value = value; updated_by = some admin })
            rows))
      ≡ some (coerce_value w value old.value_type)
lookup_written w name value admin [] old found = cc
lookup_written w name value admin (r ∷ rows) old found =
    elim (Bool-cases (text_eq r.setting_key name)) [
      | inl hit ↦
          let same : r ≡ old = some-injective r old (rw hit at found) in
          rw hit (rw hit (rw same refl))
      | inr miss ↦ rw miss (rw miss (lookup_written w name value admin rows old (rw miss at found)))
    ]

tenant_value-write :
    (w : Environment) (name value : Text) (admin : ℕ) (old : PlatformSetting) (tenant : Option ℕ)
    (key : Key) (s : Settings)
    → tenant_value tenant key (write_platform_setting name value admin old s)
      ≡ tenant_value tenant key s
tenant_value-write w name value admin old none key s = refl
tenant_value-write w name value admin old (some tenant) key s = refl

-- The value that a valid update writes is what the next read of a tenant without an override gives,
-- even within the time that the cache lives.
pub update_platform_setting-get :
    (w : Environment) (name value : Text) (admin now : ℕ) (tenant : Option ℕ) (key : Key)
    (s : Settings) (old : PlatformSetting)
    → platform_key key ≡ some name
    → platform_row name s ≡ some old
    → is_valid_value w old.value_type value ≡ true
    → tenant_value tenant key s ≡ none
    → let (r, s') = update_platform_setting w name value admin s in
      (r ≡ ok tt)
      × ((get_effective_setting w now tenant key s').0
          ≡ (some (coerce_value w value old.value_type), platform_default))
unfolding update_platform_setting get_effective_setting
update_platform_setting-get w name value admin now tenant key s old named found valid bare =
    let s' = write_platform_setting name value admin old s in
    let answer = (get_effective_setting_lem w now tenant key s' tt).0 in
    let written = lookup_written w name value admin s.platform old found in
    let on_platform : resolve_platform w (platform_key key) s'
        ≡ some (coerce_value w value old.value_type) =
      ap (λ k. resolve_platform w k s') named ∙ written in
    let resolved : resolve w tenant key s'
        ≡ (some (coerce_value w value old.value_type), platform_default) =
      resolve_bare w tenant key s' (tenant_value-write w name value admin old tenant key s ∙ bare)
      ∙ ap (or_fallback w key) on_platform in
    rw (update_platform_setting, found, valid) (refl, answer ∙ resolved)
