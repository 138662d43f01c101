-- ===== src/Subscribing/Defs.antt =====
-- The tables of subscriptions, and the operations on them. A period is in days since the epoch, the
-- clock and the end of a grace period in seconds.
use saas_frontend.Base.{
  ℕ, ◌+◌, Bool, true, false, ◌&&◌, ◌||◌, Option, none, some, List, [], ◌∷◌, Result, ok, err, ◌==◌,
  if◌then◌else◌, find_one, is_some, update_where,
}
use saas_frontend.Base.Int.{ℤ, pos}
use saas_frontend.Wallet
use saas_frontend.Wallet.{Book, debit, subscription_debit}
use saas_frontend.Plan
use saas_frontend.Plan.{
  Tier, basic, standard, all, SubscriptionPlan, SubscriptionStatus, active, grace_period, suspended,
  cancelled, BillingCycle, monthly, yearly, Subscription, Usage, subscription_of, usage_of,
  count_of, users_of,
}
use saas_frontend.Billing.Documents
use saas_frontend.Billing.Documents.{create_subscription_invoice}

-- A courier with its column `min_plan_tier`, as far as the service is given it.
pub record Courier : Type 0 where
  pub id : ℕ
  pub min_plan_tier : Option Tier

-- A row of `tenant_courier_access`.
pub record CourierAccess : Type 0 where
  pub tenant_id : ℕ
  pub courier_provider_id : ℕ

-- `ENUM('upgrade', 'downgrade', 'renewal', 'initial')`
pub data ChangeType : Type 0 where
  upgrade downgrade renewal initial : ChangeType

-- A row of `plan_change_history`.
pub record PlanChange : Type 0 where
  pub tenant_id : ℕ
  pub old_plan_id : Option ℕ
  pub new_plan_id : ℕ
  pub change_type : ChangeType
  pub changed_by : Option ℕ

pub record Accounts : Type 0 where
  pub book : Book
  pub plan : Plan.Tables
  pub plans : List SubscriptionPlan
  pub couriers : List Courier
  pub access : List CourierAccess
  pub changes : List PlanChange
  pub billing : Documents.Tables
  pub next_id : ℕ

-- The clock, its calendar, the length of a grace period in days, and what billing reads.
pub record Clock : Type 0 where
  pub now : ℕ
  pub today : ℕ
  pub in_a_month : ℕ
  pub in_a_year : ℕ
  pub grace_days : ℕ
  pub billing : Documents.Config

-- `duplicate_subscription` and `duplicate_usage` are the refusals of a second subscription of a tenant,
-- and of a second row of usage for its period.
pub data Error : Type 0 where
  duplicate_subscription duplicate_usage : Error
  subscription_not_found plan_not_found downgrade_limit_exceeded : Error
  wallet_error : Wallet.Error → Error

-- `prov.min_plan_tier || 'basic'`
abbrev pub tier_or_basic : Option Tier → Tier
tier_or_basic none = basic
tier_or_basic (some t) = t

-- Whether a plan's tier, the first, reaches the tier that a courier wants.
abbrev pub is_eligible : Tier → Tier → Bool
is_eligible all _ = true
is_eligible standard basic = true
is_eligible standard standard = true
is_eligible basic basic = true
is_eligible _ _ = false

abbrev pub is_access : ℕ → ℕ → CourierAccess → Bool
is_access tenant courier a = (a.tenant_id == tenant) && (a.courier_provider_id == courier)

abbrev pub has_access : ℕ → ℕ → List CourierAccess → Bool
has_access tenant courier [] = false
has_access tenant courier (a ∷ rows) = is_access tenant courier a || has_access tenant courier rows

abbrev pub revoke : ℕ → ℕ → List CourierAccess → List CourierAccess
revoke tenant courier [] = []
revoke tenant courier (a ∷ rows) =
    let rest = revoke tenant courier rows in if is_access tenant courier a then rest else a ∷ rest

-- `findOrCreate`
abbrev pub grant : ℕ → ℕ → List CourierAccess → List CourierAccess
grant tenant courier rows =
    if has_access tenant courier rows
    then rows
    else record { tenant_id = tenant; courier_provider_id = courier } ∷ rows

-- `syncCourierAccess`
unfoldable pub sync_courier_access :
    ℕ → Tier → List Courier → List CourierAccess → List CourierAccess
sync_courier_access tenant tier [] rows = rows
sync_courier_access tenant tier (c ∷ cs) rows = sync_courier_access tenant tier cs (
    if is_eligible tier (tier_or_basic c.min_plan_tier)
    then grant tenant c.id rows
    else revoke tenant c.id rows)

abbrev pub give_access : ℕ → Tier → Accounts → Accounts
give_access tenant tier a = record a {
  access = sync_courier_access tenant tier a.couriers a.access;
}

abbrev pub update_subscription : ℕ → (Subscription → Subscription) → Accounts → Accounts
update_subscription id f a = record a {
  plan = record a.plan { subscriptions = update_where (λ s. s.id == id) f a.plan.subscriptions };
}

abbrev pub start_usage : ℕ → ℕ → ℕ → Accounts → Accounts
start_usage tenant start end a = record a {
  plan = record a.plan {
    tracking =
        record {
          tenant_id = tenant;
          period_start = start;
          period_end = end;
          orders_count = 0;
          users_count = 1;
        }
        ∷ a.plan.tracking;
  };
}

abbrev pub log_change : ℕ → Option ℕ → ℕ → ChangeType → Option ℕ → Accounts → Accounts
log_change tenant old new type by a = record a {
  changes =
      record {
        tenant_id = tenant;
        old_plan_id = old;
        new_plan_id = new;
        change_type = type;
        changed_by = by;
      }
      ∷ a.changes;
}

-- A subscription of the default plan, for a tenant that registers.
abbrev pub start_with : Clock → ℕ → SubscriptionPlan → Accounts → Accounts
start_with clock tenant plan a = log_change tenant none plan.id initial none (
    give_access tenant plan.courier_access_tier (
      start_usage tenant clock.today clock.in_a_month (record a {
        plan = record a.plan {
          subscriptions =
              record {
                id = a.next_id;
                tenant_id = tenant;
                plan = plan;
                pending_plan = none;
                status = active;
                billing_cycle = monthly;
                auto_renew = true;
                grace_period_ends_at = none;
                current_period_start = clock.today;
                current_period_end = clock.in_a_month;
              }
              ∷ a.plan.subscriptions;
        };
        next_id = a.next_id + 1;
      })))

-- `initializeTenantSubscription`
unfoldable pub initialize_tenant_subscription :
    Clock → ℕ → Accounts → Result Error (Unit {0}) × Accounts
unfolding sync_courier_access
initialize_tenant_subscription clock tenant a = elim (find_one (λ p. p.is_default) a.plans) [
  | none ↦ (err plan_not_found, a)
  | some plan ↦
      if is_some (subscription_of tenant a.plan)
      then (err duplicate_subscription, a)
      else (if is_some (usage_of tenant clock.today a.plan)
          then (err duplicate_usage, a)
          else (ok tt, start_with clock tenant plan a))
]

-- The price of a plan for a cycle; a plan with no yearly price bills its monthly one.
abbrev pub price_for : BillingCycle → SubscriptionPlan → ℕ
price_for monthly p = p.price_monthly
price_for yearly p = elim p.price_yearly [ none ↦ p.price_monthly | some y ↦ y ]

-- `parseFloat(price) > 0` and the debit.
abbrev pub charge : ℕ → ℕ → ℕ → Option ℕ → Book → Result Wallet.Error ℤ × Book
charge tenant amount plan by b =
    if amount == 0
    then (ok (pos 0), b)
    else debit tenant (some (pos amount)) subscription_debit (some plan) by b

abbrev pub or_epoch : Option ℕ → ℕ
or_epoch none = 0
or_epoch (some t) = t

abbrev pub seconds_a_day : ℕ
seconds_a_day = 86400
