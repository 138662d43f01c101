-- ===== src/Settings/Tests.antt =====
-- A platform with two settings, a tenant with an override, and instances of the theorems.
use saas_frontend.Base.{◌-◌, ◌*◌, Option, ℕ, ◌≡◌, refl, none, some, List, [], ◌∷◌, ok}
use saas_frontend.Base.Text.{Text, codes}
use saas_frontend.Settings.Defs.{
  ndr_auto_rto_threshold, webhook_max_retry_attempts, number_value, number_type, PlatformSetting,
  Settings, Environment, platform_default, env_fallback,
}
use saas_frontend.Settings.Resolving.{get_effective_setting}
use saas_frontend.Settings.Updating.{blank, update_tenant_settings, update_platform_setting}
use saas_frontend.Settings.Cached.{
  Op, reads, updates_tenant, updates_platform, run, resolve, get_effective_setting-resolve,
  update_platform_setting-get,
}

-- A parser of one digit.
abbrev digit : Text → Option ℕ
digit (c ∷ []) = some ((c - 48) * 100)
digit _ = none

abbrev environment : Environment
environment = record {
  parse_float = digit;
  parse_json = digit;
  gst_rate_percent = 0;
  auto_rto_threshold = 0;
  audit_log_retention_days = 90;
  webhook_max_retry_attempts = 0;
}

abbrev threshold : PlatformSetting
threshold = record {
  setting_key = codes "default_ndr_auto_rto_threshold";
  setting_value = codes "4";
  value_type = number_type;
  updated_by = none;
}

abbrev settings : Settings
settings = record {
  platform = threshold ∷ [];
  tenants =
      record (blank 1 5) { ndr_auto_rto_threshold_override = some (number_value (some 200)) } ∷ [];
  history = [];
  cache = none;
}

-- The cache is filled, the threshold is set to 6, a text that is no number is refused, and the tenant
-- clears its override.
abbrev ops : List Op
ops =
    reads 1000 none ndr_auto_rto_threshold
    ∷ updates_platform (codes "default_ndr_auto_rto_threshold") (codes "6") 9
    ∷ updates_platform (codes "default_ndr_auto_rto_threshold") (codes "six") 9
    ∷ updates_tenant 1 5 ((ndr_auto_rto_threshold, none) ∷ [])
    ∷ []

cleared :
    resolve environment (some 1) ndr_auto_rto_threshold (run environment ops settings)
    ≡ (some (number_value (some 600)), platform_default)
unfolding get_effective_setting update_platform_setting update_tenant_settings
cleared = refl

falls_back :
    (get_effective_setting environment 1000 (some 1) webhook_max_retry_attempts settings).0
    ≡ (some (number_value (some 500)), env_fallback)
unfolding get_effective_setting
falls_back = refl

get_effective_setting-resolve_example :
    let s' = run environment ops settings in
    (get_effective_setting environment 2000 (some 1) ndr_auto_rto_threshold s').0
    ≡ resolve environment (some 1) ndr_auto_rto_threshold s'
get_effective_setting-resolve_example =
    get_effective_setting-resolve environment ops 2000 (some 1) ndr_auto_rto_threshold settings refl

update_platform_setting-get_example :
    let (r, s') =
      update_platform_setting environment
        (codes "default_ndr_auto_rto_threshold")
        (codes "6")
        9
        settings in
    (r ≡ ok tt)
    × ((get_effective_setting environment 1001 (some 2) ndr_auto_rto_threshold s').0
        ≡ (some (number_value (some 600)), platform_default))
update_platform_setting-get_example =
    update_platform_setting-get environment (codes "default_ndr_auto_rto_threshold") (codes "6") 9
      1001 (some 2) ndr_auto_rto_threshold settings threshold refl refl refl refl
