-- ===== src/Settings/Updating.antt =====
-- The updates of the settings of a tenant and of the platform.
use saas_frontend.Base.{
  ℕ, Bool, true, false, ◌||◌, Option, none, some, List, [], ◌∷◌, Result, ok, err, ◌==◌,
  if◌then◌else◌, find_one, is_some, update_where,
}
use saas_frontend.Base.Text.{Text, codes, text_eq}
use saas_frontend.Settings.Defs.{
  Key, invoice_prefix, ndr_auto_rto_threshold, low_balance_threshold, default_pickup_address_id,
  Value, text_value, PlatformSetting, TenantSetting, Change, Settings, Environment, Error,
  setting_not_found, invalid_setting_value, ValueType, string_type, number_type, boolean_type,
  json_type, name_of, override_of,
}
use saas_frontend.Settings.Resolving.{tenant_row}

abbrev pub blank : ℕ → ℕ → TenantSetting
blank tenant user = record {
  tenant_id = tenant;
  invoice_prefix_override = none;
  ndr_auto_rto_threshold_override = none;
  default_pickup_address_id = none;
  low_balance_threshold_override = none;
  updated_by = some user;
}

abbrev pub has_column : Key → Bool
has_column invoice_prefix = true
has_column ndr_auto_rto_threshold = true
has_column default_pickup_address_id = true
has_column low_balance_threshold = true
has_column _ = false

abbrev pub set_override : Key → Option Value → TenantSetting → TenantSetting
set_override invoice_prefix value row = record row { invoice_prefix_override = value }
set_override ndr_auto_rto_threshold value row = record row {
  ndr_auto_rto_threshold_override = value;
}
set_override default_pickup_address_id value row = record row { default_pickup_address_id = value }
set_override low_balance_threshold value row = record row { low_balance_threshold_override = value }
set_override _ value row = row

-- `val === '' || val === null ? null : val`
abbrev pub null_if_blank : Option Value → Option Value
null_if_blank (some (text_value [])) = none
null_if_blank value = value

abbrev pub set_overrides : List (Key × Option Value) → TenantSetting → TenantSetting
set_overrides [] row = row
set_overrides ((key, value) ∷ rest) row =
    set_overrides rest (set_override key (null_if_blank value) row)

abbrev pub old_value_of : Key → Option TenantSetting → Option Value
old_value_of key none = none
old_value_of key (some row) = override_of key row

-- The rows of the history for the keys that have a column.
abbrev pub record_changes :
    ℕ → ℕ → Option TenantSetting → List (Key × Option Value) → List Change → List Change
record_changes tenant user existing [] history = history
record_changes tenant user existing ((key, value) ∷ rest) history =
    record_changes tenant user existing rest (
      if has_column key
      then record {
        scope_id = some tenant;
        setting_key = name_of key;
        old_value = old_value_of key existing;
        new_value = value;
        changed_by = user;
      }
        ∷ history
      else history)

-- `upsertTenantSettings`
abbrev pub upsert :
    ℕ
    → ℕ
    → List (Key × Option Value)
    → Option TenantSetting
    → List TenantSetting
    → List TenantSetting
upsert tenant user updates none rows = set_overrides updates (blank tenant user) ∷ rows
upsert tenant user updates (some old) rows =
    update_where (λ r. r.tenant_id == tenant)
      (λ r. set_overrides updates (record r { updated_by = some user })) rows

-- `updateTenantSettings`
unfoldable pub update_tenant_settings : ℕ → ℕ → List (Key × Option Value) → Settings → Settings
update_tenant_settings tenant user updates s =
    let existing = tenant_row tenant s in
    record s {
      tenants = upsert tenant user updates existing s.tenants;
      history = record_changes tenant user existing updates s.history;
    }

-- Whether a value is one of its declared type.
abbrev pub is_valid_value : Environment → ValueType → Text → Bool
is_valid_value w number_type value = is_some (w.parse_float value)
is_valid_value w boolean_type value = text_eq value (codes "true") || text_eq value (codes "false")
is_valid_value w json_type value = is_some (w.parse_json value)
is_valid_value w string_type value = true

abbrev pub platform_row : Text → Settings → Option PlatformSetting
platform_row name s = find_one (λ r. text_eq r.setting_key name) s.platform

abbrev pub write_platform_setting : Text → Text → ℕ → PlatformSetting → Settings → Settings
write_platform_setting name value admin old s = record s {
  platform =
      update_where (λ r. text_eq r.setting_key name)
        (λ r. record r { setting_value = value; updated_by = some admin }) s.platform;
  history =
      record {
        scope_id = none;
        setting_key = name;
        old_value = some (text_value old.setting_value);
        new_value = some (text_value value);
        changed_by = admin;
      }
      ∷ s.history;
  cache = none;
}

-- `updatePlatformSetting`, of a value that is a text.
unfoldable pub update_platform_setting :
    Environment → Text → Text → ℕ → Settings → Result Error (Unit {0}) × Settings
update_platform_setting w name value admin s = elim (platform_row name s) [
  | none ↦ (err setting_not_found, s)
  | some old ↦
      if is_valid_value w old.value_type value
      then (ok tt, write_platform_setting name value admin old s)
      else (err invalid_setting_value, s)
]
