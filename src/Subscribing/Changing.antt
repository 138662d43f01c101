-- ===== src/Subscribing/Changing.antt =====
-- The change of a plan.
use saas_frontend.Base.{
  ℕ, ◌+◌, ◌-◌, ◌*◌, ◌/◌, Bool, false, ◌||◌, Option, none, some, Result, ok, err, ◌==◌, ltb,
  if◌then◌else◌, find_one,
}
use saas_frontend.Base.Int.{ℤ}
use saas_frontend.Wallet
use saas_frontend.Wallet.{Book}
use saas_frontend.Plan.{
  SubscriptionPlan, active, BillingCycle, Subscription, subscription_of, usage_of, count_of,
  users_of,
}
use saas_frontend.Subscribing.Defs.{
  seconds_a_day, Accounts, Error, sync_courier_access, give_access, update_subscription, log_change,
  price_for, charge, upgrade, downgrade, subscription_not_found, plan_not_found,
  downgrade_limit_exceeded, wallet_error,
}

-- `Math.max(1, Math.round((end - start) / day))`
abbrev pub total_days : Subscription → ℕ
total_days sub =
    let days : ℕ = sub.current_period_end - sub.current_period_start in
    if days == 0 then 1 else days

-- `Math.max(0, Math.round((end - today) / day))`; `-` stops at 0, as the maximum does.
abbrev pub days_remaining : ℕ → Subscription → ℕ
days_remaining now sub = (sub.current_period_end * seconds_a_day - now + 43200) / seconds_a_day

-- `Math.round(difference * (daysRemaining / totalDays) * 100) / 100`, in paise; half rounds up.
-- The code computes with doubles, which can lie on the other side of half a paisa: its charge may be a
-- paisa off this one.
unfoldable pub prorated : ℕ → ℕ → ℕ → ℕ
prorated difference remaining total = (2 * (difference * remaining) + total) / (2 * total)

pub data Outcome : Type 0 where
  immediate : ℕ → Outcome
  deferred : Outcome

abbrev pub switch : BillingCycle → Option ℕ → Subscription → SubscriptionPlan → Accounts → Accounts
switch cycle user sub new a = log_change sub.tenant_id (some sub.plan.id) new.id upgrade user (
    give_access sub.tenant_id new.courier_access_tier (
      update_subscription sub.id
        (λ s. record s {
          plan = new;
          billing_cycle = cycle;
          status = active;
          grace_period_ends_at = none;
          pending_plan = none;
        })
        a))

-- What follows the debit of an upgrade. One that fails rolls the transaction back.
abbrev pub settle_upgrade :
    BillingCycle
    → Option ℕ
    → Subscription
    → SubscriptionPlan
    → ℕ
    → Accounts
    → Result Wallet.Error ℤ × Book
    → Result Error Outcome × Accounts
settle_upgrade cycle user sub new amount a (err e, b) =
    (err (wallet_error e), record a { book = record a.book { effects = b.effects } })
settle_upgrade cycle user sub new amount a (ok balance, b) =
    (ok (immediate amount), switch cycle user sub new (record a { book = b }))

-- An upgrade is charged for the rest of the period and takes effect at once.
abbrev pub upgrade_to :
    ℕ
    → BillingCycle
    → Option ℕ
    → Subscription
    → SubscriptionPlan
    → ℕ
    → Accounts
    → Result Error Outcome × Accounts
upgrade_to now cycle user sub new difference a =
    let amount = prorated difference (days_remaining now sub) (total_days sub) in
    settle_upgrade cycle user sub new amount a (charge sub.tenant_id amount new.id user a.book)

abbrev pub exceeds : ℕ → Option ℕ → Bool
exceeds n none = false
exceeds n (some limit) = ltb limit n

-- A downgrade waits for the renewal, and is refused where the usage is over the new plan's limits.
abbrev pub downgrade_to :
    Option ℕ → Subscription → SubscriptionPlan → Accounts → Result Error Outcome × Accounts
downgrade_to user sub new a =
    let usage = usage_of sub.tenant_id sub.current_period_start a.plan in
    if exceeds (count_of usage) new.max_orders_per_month || exceeds (users_of usage) new.max_users
    then (err downgrade_limit_exceeded, a)
    else (
      ok deferred,
      log_change sub.tenant_id (some sub.plan.id) new.id downgrade user
          (update_subscription sub.id (λ s. record s { pending_plan = some new }) a),
    )

abbrev pub change_plan :
    ℕ
    → BillingCycle
    → Option ℕ
    → Subscription
    → SubscriptionPlan
    → Accounts
    → Result Error Outcome × Accounts
change_plan now cycle user sub new a =
    let old_price = price_for sub.billing_cycle sub.plan in
    let new_price = price_for cycle new in
    if ltb old_price new_price
    then upgrade_to now cycle user sub new (new_price - old_price) a
    else downgrade_to user sub new a

-- `changeSubscription`
unfoldable pub change_subscription :
    ℕ → ℕ → ℕ → BillingCycle → Option ℕ → Accounts → Result Error Outcome × Accounts
unfolding prorated sync_courier_access
change_subscription now tenant plan cycle user a = elim (subscription_of tenant a.plan) [
  | none ↦ (err subscription_not_found, a)
  | some sub ↦ elim (find_one (λ p. p.id == plan) a.plans) [
    | none ↦ (err plan_not_found, a)
    | some new ↦ change_plan now cycle user sub new a
  ]
]
