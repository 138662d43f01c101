-- ===== src/Plan/Defs.antt =====
-- The tables of plans and usage, `checkLimit` and `incrementUsage`
-- (backend/src/services/planEnforcement.service.js). A subscription is read with its plan.
use saas_frontend.Base.{
  ℕ, ◌+◌, Bool, true, false, ◌&&◌, Option, none, some, List, ◌∷◌, ok, Action, pure, throw, gets,
  or_throw, throw_if, ◌>>=◌, ◌>>◌, ◌==◌, leb, if◌then◌else◌, find_one, update_where, count_where,
}
use saas_frontend.Base.Text.{Text}

-- `ENUM` of `courier_access_tier`
pub data Tier : Type 0 where
  basic standard all : Tier

-- A limit that is `null` is `none`: there is none. Prices are in paise.
pub record SubscriptionPlan : Type 0 where
  pub id : ℕ
  pub slug : Text
  pub price_monthly : ℕ
  pub price_yearly : Option ℕ
  pub max_orders_per_month : Option ℕ
  pub max_users : Option ℕ
  pub max_pickup_addresses : Option ℕ
  pub courier_access_tier : Tier
  pub is_default : Bool

pub data SubscriptionStatus : Type 0 where
  active grace_period suspended cancelled : SubscriptionStatus

pub data BillingCycle : Type 0 where
  monthly yearly : BillingCycle

-- `TenantSubscription` with its `plan` and its `pendingPlan`. Dates are days, and the end of the
-- grace period is a time in seconds.
pub record Subscription : Type 0 where
  pub id : ℕ
  pub tenant_id : ℕ
  pub plan : SubscriptionPlan
  pub pending_plan : Option SubscriptionPlan
  pub status : SubscriptionStatus
  pub billing_cycle : BillingCycle
  pub auto_renew : Bool
  pub grace_period_ends_at : Option ℕ
  pub current_period_start : ℕ
  pub current_period_end : ℕ

-- A row of `PlanUsageTracking`.
pub record Usage : Type 0 where
  pub tenant_id : ℕ
  pub period_start : ℕ
  pub period_end : ℕ
  pub orders_count : ℕ
  pub users_count : ℕ

-- Of the users and the pickup addresses only the tenants of the rows count.
pub record Tables : Type 0 where
  pub subscriptions : List Subscription
  pub tracking : List Usage
  pub users : List ℕ
  pub pickup_addresses : List ℕ

pub data LimitKey : Type 0 where
  max_orders_per_month max_users max_pickup_addresses : LimitKey

-- `ForbiddenError`, without and with its code `SUBSCRIPTION_SUSPENDED`, and `PlanLimitExceededError`
-- with the count and the limit of its message.
pub data Error : Type 0 where
  no_active_subscription subscription_suspended : Error
  plan_limit_exceeded : LimitKey → ℕ → ℕ → Error

abbrev pub Call : Type 0 → Type 0
Call A = Action Tables Error A

abbrev pub is_suspended : SubscriptionStatus → Bool
is_suspended suspended = true
is_suspended _ = false

abbrev pub subscription_of : ℕ → Tables → Option Subscription
subscription_of tenant t = find_one (λ s. s.tenant_id == tenant) t.subscriptions

-- `where: { tenant_id, period_start: sub.current_period_start }`
abbrev pub is_period : ℕ → ℕ → Usage → Bool
is_period tenant start u = (u.tenant_id == tenant) && (u.period_start == start)

abbrev pub usage_of : ℕ → ℕ → Tables → Option Usage
usage_of tenant start t = find_one (is_period tenant start) t.tracking

-- `tracking ? tracking.orders_count : 0`, and the same for the users
abbrev pub count_of : Option Usage → ℕ
count_of none = 0
count_of (some u) = u.orders_count

abbrev pub users_of : Option Usage → ℕ
users_of none = 0
users_of (some u) = u.users_count

-- `count({ where: { tenant_id } })`
abbrev pub rows_of : ℕ → List ℕ → ℕ
rows_of tenant = count_where (λ t. t == tenant)

-- Step 3: the tracking row of the current period, made if it is missing.
abbrev pub current_usage : ℕ → Subscription → Option Usage → Call Usage
current_usage tenant sub (some u) t = (ok u, t)
current_usage tenant sub none t =
    let fresh : Usage = record {
      tenant_id = tenant;
      period_start = sub.current_period_start;
      period_end = sub.current_period_end;
      orders_count = 0;
      users_count = 1;
    } in
    (ok fresh, record t { tracking = fresh ∷ t.tracking })

-- `limit !== null && count >= limit`
abbrev pub enforce : LimitKey → ℕ → Option ℕ → Call (Unit {0})
enforce key count none = pure tt
enforce key count (some limit) =
    if leb limit count then throw (plan_limit_exceeded key count limit) else pure tt

-- Step 4.
abbrev pub match_limit : LimitKey → ℕ → SubscriptionPlan → Usage → Call (Unit {0})
match_limit max_orders_per_month tenant plan usage t =
    enforce max_orders_per_month usage.orders_count plan.max_orders_per_month t
match_limit max_users tenant plan usage t =
    enforce max_users (rows_of tenant t.users) plan.max_users t
match_limit max_pickup_addresses tenant plan usage t =
    enforce max_pickup_addresses (rows_of tenant t.pickup_addresses) plan.max_pickup_addresses t

-- `checkLimit`
unfoldable pub check_limit : ℕ → LimitKey → Call (Unit {0})
check_limit tenant key = do
  sub ← or_throw (← gets (subscription_of tenant)) no_active_subscription
  throw_if (is_suspended sub.status) subscription_suspended
  usage ← current_usage tenant sub (← gets (usage_of tenant sub.current_period_start))
  match_limit key tenant sub.plan usage

abbrev pub is_orders : LimitKey → Bool
is_orders max_orders_per_month = true
is_orders _ = false

abbrev pub is_users : LimitKey → Bool
is_users max_users = true
is_users _ = false

-- `tracking.increment`
abbrev pub increment : LimitKey → ℕ → Usage → Usage
increment max_orders_per_month n u = record u { orders_count = u.orders_count + n }
increment max_users n u = record u { users_count = u.users_count + n }
increment max_pickup_addresses n u = u

abbrev pub count_usage : ℕ → LimitKey → ℕ → Subscription → Option Usage → Tables → Tables
count_usage tenant key n sub (some u) t = record t {
  tracking = update_where (is_period tenant sub.current_period_start) (increment key n) t.tracking;
}
count_usage tenant key n sub none t = record t {
  tracking =
      record {
        tenant_id = tenant;
        period_start = sub.current_period_start;
        period_end = sub.current_period_end;
        orders_count = if is_orders key then n else 0;
        users_count = if is_users key then n else 1;
      }
      ∷ t.tracking;
}

abbrev pub increment_for : ℕ → LimitKey → ℕ → Option Subscription → Tables → Tables
increment_for tenant key n none t = t
increment_for tenant key n (some sub) t =
    count_usage tenant key n sub (usage_of tenant sub.current_period_start t) t

-- `incrementUsage`: nothing happens without a subscription.
unfoldable pub increment_usage : ℕ → LimitKey → ℕ → Tables → Tables
increment_usage tenant key n t = increment_for tenant key n (subscription_of tenant t) t
