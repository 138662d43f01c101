-- ===== src/Subscribing/Renewing.antt =====
-- The renewal of a subscription.
use saas_frontend.Base.{
  ℕ, ◌+◌, ◌*◌, Option, none, some, Result, ok, err, ◌==◌, leb, if◌then◌else◌, find_one, is_some,
}
use saas_frontend.Base.Text.{Text, codes, text_eq}
use saas_frontend.Plan.{
  usage_of, Tier, basic, SubscriptionPlan, SubscriptionStatus, active, grace_period, suspended,
  cancelled, BillingCycle, monthly, yearly, Subscription,
}
use saas_frontend.Billing.Documents.{create_subscription_invoice}
use saas_frontend.Subscribing.Defs.{
  or_epoch, seconds_a_day, ChangeType, Accounts, Clock, Error, sync_courier_access, give_access,
  update_subscription, start_usage, log_change, price_for, charge, downgrade, renewal,
  subscription_not_found, duplicate_usage,
}

abbrev pub free_plan : Accounts → Option SubscriptionPlan
free_plan a = find_one (λ p. text_eq p.slug (codes "free")) a.plans

abbrev pub free_tier : Accounts → Tier
free_tier a = elim (free_plan a) [ none ↦ basic | some p ↦ p.courier_access_tier ]

-- A subscription that is not to be renewed falls back to the free plan.
abbrev pub lapse : Subscription → Accounts → Accounts
lapse sub a = give_access sub.tenant_id (free_tier a) (
    update_subscription sub.id
      (λ s. record s {
        status = cancelled;
        plan = elim (free_plan a) [ none ↦ sub.plan | some p ↦ p ];
        pending_plan = none;
      })
      a)

abbrev pub plan_to_charge : Subscription → SubscriptionPlan
plan_to_charge sub = elim sub.pending_plan [ some p ↦ p | none ↦ sub.plan ]

abbrev pub change_of : Option SubscriptionPlan → ChangeType
change_of none = renewal
change_of (some p) = downgrade

abbrev pub cycle_end : Clock → BillingCycle → ℕ
cycle_end clock monthly = clock.in_a_month
cycle_end clock yearly = clock.in_a_year

-- What follows a debit that went through. The history reads `sub.plan_id` after its update.
abbrev pub extend : Clock → Option Text → Subscription → Accounts → Accounts
extend clock company_state sub a =
    let plan = plan_to_charge sub in
    let end = cycle_end clock sub.billing_cycle in
    let a' : Accounts =
      log_change sub.tenant_id (some plan.id) plan.id (change_of sub.pending_plan) none (
        give_access sub.tenant_id plan.courier_access_tier (
          start_usage sub.tenant_id clock.today end (
            update_subscription sub.id
              (λ s. record s {
                plan = plan;
                status = active;
                current_period_start = clock.today;
                current_period_end = end;
                grace_period_ends_at = none;
                pending_plan = none;
              })
              a))) in
    record a' {
      billing =
          create_subscription_invoice clock.billing sub.tenant_id company_state
            (price_for sub.billing_cycle plan) a'.billing;
    }

abbrev pub enter_grace : Clock → Subscription → Accounts → Accounts
enter_grace clock sub a =
    update_subscription sub.id
      (λ s. record s {
        status = grace_period;
        grace_period_ends_at = some (clock.now + clock.grace_days * seconds_a_day);
      })
      a

abbrev pub suspend : Subscription → Accounts → Accounts
suspend sub a =
    give_access sub.tenant_id (free_tier a)
      (update_subscription sub.id (λ s. record s { status = suspended }) a)

-- What follows a debit that failed, by the status that the subscription has.
abbrev pub dun : SubscriptionStatus → Clock → Subscription → Accounts → Accounts
dun suspended clock sub a = a
dun grace_period clock sub a =
    if leb (or_epoch sub.grace_period_ends_at) clock.now then suspend sub a else a
dun _ clock sub a = enter_grace clock sub a

-- A renewal of a subscription that was read: a debit that fails is no error of the renewal. A period
-- whose usage has a row already fails, and the transaction with it.
abbrev pub renew :
    Clock → Option Text → Subscription → Accounts → Result Error (Unit {0}) × Accounts
renew clock company_state sub a =
    let plan = plan_to_charge sub in
    let (r, b) = charge sub.tenant_id (price_for sub.billing_cycle plan) plan.id none a.book in
    let a' : Accounts = record a { book = b } in
    elim r [
      | err e ↦ (ok tt, dun sub.status clock sub a')
      | ok balance ↦
          if is_some (usage_of sub.tenant_id clock.today a.plan)
          then (err duplicate_usage, record a { book = record a.book { effects = b.effects } })
          else (ok tt, extend clock company_state sub a')
    ]

-- `renewSubscription`, in a transaction of its own. The tenant's state is read by the invoice.
unfoldable pub renew_subscription :
    Clock → Option Text → ℕ → Accounts → Result Error (Unit {0}) × Accounts
unfolding sync_courier_access create_subscription_invoice
renew_subscription clock company_state id a =
    elim (find_one (λ s. s.id == id) a.plan.subscriptions) [
      | none ↦ (err subscription_not_found, a)
      | some sub ↦ if sub.auto_renew then renew clock company_state sub a else (ok tt, lapse sub a)
    ]
