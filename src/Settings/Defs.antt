-- ===== src/Settings/Defs.antt =====
-- The tables of settings, the cache of the platform's, and the operations. A number is given in
-- hundredths, and one that is `NaN` is `none`; times are in milliseconds.
use saas_frontend.Base.{ℕ, ◌*◌, Bool, Option, none, some, List, [], map, ◌==◌, if◌then◌else◌}
use saas_frontend.Base.Text.{Text, codes, text_eq}

-- The keys that the tables of the service name, and any other, the members that every object of the
-- language has aside.
pub data Key : Type 0 where
  invoice_prefix ndr_auto_rto_threshold low_balance_threshold default_pickup_address_id : Key
  default_gst_rate_percent audit_log_retention_days webhook_max_retry_attempts : Key
  other_key : Text → Key

-- What a setting may hold; what JSON holds is a number that stands for it.
pub data Value : Type 0 where
  text_value : Text → Value
  number_value : Option ℕ → Value
  boolean_value : Bool → Value
  json_value : ℕ → Value

-- `ENUM` of the column `value_type`
pub data ValueType : Type 0 where
  string_type number_type boolean_type json_type : ValueType

pub record PlatformSetting : Type 0 where
  pub setting_key : Text
  pub setting_value : Text
  pub value_type : ValueType
  pub updated_by : Option ℕ

pub record TenantSetting : Type 0 where
  pub tenant_id : ℕ
  pub invoice_prefix_override : Option Value
  pub ndr_auto_rto_threshold_override : Option Value
  pub default_pickup_address_id : Option Value
  pub low_balance_threshold_override : Option Value
  pub updated_by : Option ℕ

-- A row of the change history: the tenant, or none for the platform, the key, the values, and who.
pub record Change : Type 0 where
  pub scope_id : Option ℕ
  pub setting_key : Text
  pub old_value : Option Value
  pub new_value : Option Value
  pub changed_by : ℕ

-- `_platformSettingsCache` and `_cachePopulatedAt`
pub record Cache : Type 0 where
  pub values : List (Text × Value)
  pub populated_at : ℕ

pub record Settings : Type 0 where
  pub platform : List PlatformSetting
  pub tenants : List TenantSetting
  pub history : List Change
  pub cache : Option Cache

-- `parseFloat` and `JSON.parse`, and the numbers of the environment: 0 stands for one that is missing.
pub record Environment : Type 0 where
  pub parse_float : Text → Option ℕ
  pub parse_json : Text → Option ℕ
  pub gst_rate_percent : ℕ
  pub auto_rto_threshold : ℕ
  pub audit_log_retention_days : ℕ
  pub webhook_max_retry_attempts : ℕ

pub data SettingSource : Type 0 where
  tenant_override platform_default env_fallback : SettingSource

pub data Error : Type 0 where
  setting_not_found invalid_setting_value : Error

abbrev pub or_default : ℕ → ℕ → Value
or_default n default = number_value (some ((if n == 0 then default else n) * 100))

-- `ENV_FALLBACKS`
abbrev pub env_fallbacks : Environment → Key → Option Value
env_fallbacks w default_gst_rate_percent = some (or_default w.gst_rate_percent 18)
env_fallbacks w ndr_auto_rto_threshold = some (or_default w.auto_rto_threshold 3)
env_fallbacks w low_balance_threshold = some (number_value (some 50000))
env_fallbacks w audit_log_retention_days = some (or_default w.audit_log_retention_days 365)
env_fallbacks w webhook_max_retry_attempts = some (or_default w.webhook_max_retry_attempts 5)
env_fallbacks w invoice_prefix = some (text_value (codes "INV"))
env_fallbacks w _ = none

abbrev pub name_of : Key → Text
name_of invoice_prefix = codes "invoice_prefix"
name_of ndr_auto_rto_threshold = codes "ndr_auto_rto_threshold"
name_of low_balance_threshold = codes "low_balance_threshold"
name_of default_pickup_address_id = codes "default_pickup_address_id"
name_of default_gst_rate_percent = codes "default_gst_rate_percent"
name_of audit_log_retention_days = codes "audit_log_retention_days"
name_of webhook_max_retry_attempts = codes "webhook_max_retry_attempts"
name_of (other_key name) = name

-- `PLATFORM_KEY_MAP`, and the key itself where the map does not name it
abbrev pub platform_key : Key → Option Text
platform_key ndr_auto_rto_threshold = some (codes "default_ndr_auto_rto_threshold")
platform_key low_balance_threshold = some (codes "default_low_balance_threshold")
platform_key invoice_prefix = none
platform_key (other_key []) = none
platform_key key = some (name_of key)

-- `TENANT_OVERRIDE_COLUMNS`: the value of a key's column, if it has a column and the column a value.
abbrev pub override_of : Key → TenantSetting → Option Value
override_of invoice_prefix row = row.invoice_prefix_override
override_of ndr_auto_rto_threshold row = row.ndr_auto_rto_threshold_override
override_of default_pickup_address_id row = row.default_pickup_address_id
override_of low_balance_threshold row = row.low_balance_threshold_override
override_of _ row = none

abbrev pub boolean_of : Text → Bool
boolean_of value = text_eq value (codes "true")

-- `_coerceValue`
abbrev pub coerce_value : Environment → Text → ValueType → Value
coerce_value w value number_type = number_value (w.parse_float value)
coerce_value w value boolean_type = boolean_value (boolean_of value)
coerce_value w value json_type = elim (w.parse_json value) [
  | none ↦ text_value value
  | some j ↦ json_value j
]
coerce_value w value string_type = text_value value

abbrev pub values_of : Environment → List PlatformSetting → List (Text × Value)
values_of w rows = map (λ r. (r.setting_key, coerce_value w r.setting_value r.value_type)) rows
