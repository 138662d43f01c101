-- ===== src/Subscribing/Upgrade.antt =====
-- What an upgrade costs.
use saas_frontend.Base.{
  ℕ, ◌-◌, ◌*◌, ◌≤◌, ◌<◌, ◌≡◌, ◌⊎◌, refl, ap, sym, ◌∙◌, Option, none, some, Result, ok, err, arith,
  ◌==◌, ==_iff, find_one, Bool-cases, inl, inr,
}
use saas_frontend.Base.Int.{ℤ, pos, ◌≤ℤ◌, ◌+ℤ◌, ◌-ℤ◌, int_laws, leb_ℤ, lt_of_leb_ℤ}
use saas_frontend.Wallet
use saas_frontend.Wallet.{WalletRow, Book, debit, wallet_of, subscription_debit}
use saas_frontend.Wallet.Outcome.{debit_cases}
use saas_frontend.Wallet.Refund.{debit-ok_iff, wallet_of-Posted}
use saas_frontend.Subscribing.Suspends.{subscription_by_id, update_found}
use saas_frontend.Plan.{Subscription, SubscriptionPlan, BillingCycle, active, subscription_of}
use saas_frontend.Subscribing.Defs.{
  Accounts, Error, charge, price_for, seconds_a_day, sync_courier_access,
}
use saas_frontend.Subscribing.Changing.{
  Outcome, immediate, total_days, days_remaining, prorated, settle_upgrade, upgrade_to,
  change_subscription,
}

-- A charge for at most the whole of a period is at most the difference of the prices.
prorated-le :
    (difference remaining total : ℕ)
    → 1 ≤ total
    → remaining ≤ total
    → prorated difference remaining total ≤ difference
unfolding prorated
prorated-le difference remaining total positive le = grind arith

-- The days that remain are at most the days of the period, once it has begun.
remaining-le :
    (now : ℕ) (sub : Subscription)
    → sub.current_period_start * seconds_a_day ≤ now
    → days_remaining now sub ≤ total_days sub
remaining-le now sub begun = grind arith

total-positive : (sub : Subscription) → 1 ≤ total_days sub
total-positive sub = ground arith

-- What a subscription row, the tenant's wallet and its access are after an upgrade that cost `c`.
pub record Upgraded (cycle : BillingCycle) (sub : Subscription) (new : SubscriptionPlan)
    (w : WalletRow) (c : ℕ) (a a' : Accounts) : Type 0 where
  pub row :
      subscription_by_id sub.id a'
      ≡ some (record sub {
        plan = new;
        billing_cycle = cycle;
        status = active;
        grace_period_ends_at = none;
        pending_plan = none;
      })
  pub paid : wallet_of sub.tenant_id a'.book ≡ some (record w { balance = w.balance -ℤ pos c })
  pub access :
      a'.access ≡ sync_courier_access sub.tenant_id new.courier_access_tier a.couriers a.access

-- A charge of a wallet that is not in debt: it goes through where the balance covers it.
charge_cases :
    (tenant amount plan : ℕ) (by : Option ℕ) (b : Book) (w : WalletRow)
    → wallet_of tenant b ≡ some w
    → pos 0 ≤ℤ w.balance
    → ((pos amount ≤ℤ w.balance)
        × (new : ℤ) × (b' : Book) × (charge tenant amount plan by b ≡ (ok new, b'))
        × (wallet_of tenant b' ≡ some (record w { balance = w.balance -ℤ pos amount })))
      ⊎ ((w.balance +ℤ pos 1 ≤ℤ pos amount)
          × (e : Wallet.Error) × (charge tenant amount plan by b ≡ (err e, b)))
charge_cases tenant amount plan by b w found nonneg = elim (Bool-cases (amount == 0)) [
  | inl zero ↦
      let nothing : amount ≡ 0 = (==_iff amount 0).0 zero in
      let same : w.balance ≡ w.balance -ℤ pos amount = omega (int_laws, nothing) in
      inl (
        omega (int_laws, nothing, nonneg),
        pos 0,
        b,
        rw zero refl,
        found ∙ ap (λ z. some (record w { balance = z })) same,
      )
  | inr positive ↦
      let d = debit tenant (some (pos amount)) subscription_debit (some plan) by b in
      let iff = λ (new : ℤ).
        debit-ok_iff tenant (pos amount) new subscription_debit (some plan) by b w found in
      elim (debit_cases tenant subscription_debit (some plan) by b (some (pos amount))) [
        | inl p ↦
            let answer = ap (λ (z : Result Wallet.Error ℤ × Book). z.0) p.result in
            let (_, covered, new) = (iff p.new_balance).0 answer in
            let row : p.wallet ≡ w = cc in
            inl (
              covered,
              p.new_balance,
              d.1,
              rw positive (ap (λ r. (r, d.1)) answer),
              wallet_of-Posted b p ∙ ap some (rw (row, new) refl),
            )
        | inr (e, refused) ↦ elim (Bool-cases (leb_ℤ (pos amount) w.balance)) [
          | inl covered ↦
              let paid : d.0 ≡ ok (w.balance -ℤ pos amount) =
                (iff _).1 (ground arith, ground arith, refl) in
              let failed : d.0 ≡ err e = ap (λ (z : Result Wallet.Error ℤ × Book). z.0) refused in
              cc
          | inr short ↦
              inr
                (omega (int_laws, lt_of_leb_ℤ (pos amount) w.balance short), e, rw positive refused)
        ]
      ]
]

abbrev pub price_difference : BillingCycle → Subscription → SubscriptionPlan → ℕ
price_difference cycle sub new = price_for cycle new - price_for sub.billing_cycle sub.plan

abbrev pub upgrade_charge : ℕ → BillingCycle → Subscription → SubscriptionPlan → ℕ
upgrade_charge now cycle sub new =
    prorated (price_difference cycle sub new) (days_remaining now sub) (total_days sub)

-- How an upgrade that costs `c` ends: paid and carried out, or refused with the books, the
-- subscription, its history and the access as they were.
abbrev pub Paid :
    ℕ
    → BillingCycle
    → Subscription
    → SubscriptionPlan
    → WalletRow
    → Accounts
    → Result Error Outcome × Accounts
    → Type 0
Paid c cycle sub new w a (r, a') =
    (pos c ≤ℤ w.balance) × (r ≡ ok (immediate c)) × Upgraded cycle sub new w c a a'

abbrev pub Unpaid : ℕ → WalletRow → Accounts → Result Error Outcome × Accounts → Type 0
Unpaid c w a (r, a') =
    (w.balance +ℤ pos 1 ≤ℤ pos c)
    × ((e : Error) × (r ≡ err e))
    × (a' ≡ record a { book = record a.book { effects = a'.book.effects } })

module _ (now tenant plan : ℕ) (cycle : BillingCycle) (user : Option ℕ) (a : Accounts)
    (sub : Subscription) (new : SubscriptionPlan) (w : WalletRow)
    (subscribed : subscription_of tenant a.plan ≡ some sub)
    (by_id : subscription_by_id sub.id a ≡ some sub)
    (listed : find_one (λ (p : SubscriptionPlan). p.id == plan) a.plans ≡ some new)
    (dearer : price_for sub.billing_cycle sub.plan < price_for cycle new)
    (has_wallet : wallet_of sub.tenant_id a.book ≡ some w) (nonneg : pos 0 ≤ℤ w.balance) where
  is_upgrade :
      change_subscription now tenant plan cycle user a
      ≡ upgrade_to now cycle user sub new (price_difference cycle sub new) a
  unfolding change_subscription
  is_upgrade = ground (arith, subscribed, listed)

  settle_upgrade_cases :
      (p : Result Wallet.Error ℤ × Book)
      → charge sub.tenant_id (upgrade_charge now cycle sub new) new.id user a.book ≡ p
      → Paid
          (upgrade_charge now cycle sub new)
          cycle
          sub
          new
          w
          a
          (settle_upgrade cycle user sub new (upgrade_charge now cycle sub new) a p)
        ⊎ Unpaid
            (upgrade_charge now cycle sub new)
            w
            a
            (settle_upgrade cycle user sub new (upgrade_charge now cycle sub new) a p)
  settle_upgrade_cases p charged =
      elim (charge_cases sub.tenant_id (upgrade_charge now cycle sub new) new.id user a.book w
        has_wallet nonneg) [
          | inl (covered, z, b, paid, row) ↦ rw (sym charged ∙ paid) (
              inl (
                covered,
                refl,
                record {
                  row = update_found sub.id sub _ a.plan.subscriptions (λ y. refl) by_id;
                  paid = row;
                  access = refl;
                },
              ))
          | inr (short, e, failed) ↦ rw (sym charged ∙ failed) (inr (short, (_, refl), refl))
        ]

  -- An upgrade to a dearer plan costs at most the difference of the two prices, once the period has
  -- begun. A wallet that is not in debt and covers the charge pays it and nothing else, and the plan,
  -- the status and the access to couriers change with it; where it does not cover the charge nothing
  -- changes but what is queued for other services.
  pub change_subscription-upgrade :
      sub.current_period_start * seconds_a_day ≤ now
      → let z = change_subscription now tenant plan cycle user a in
        let c = upgrade_charge now cycle sub new in
        (c ≤ price_difference cycle sub new) × (Paid c cycle sub new w a z ⊎ Unpaid c w a z)
  change_subscription-upgrade begun = (
    prorated-le (price_difference cycle sub new) (days_remaining now sub) (total_days sub)
        (total-positive sub) (remaining-le now sub begun),
    rw is_upgrade (settle_upgrade_cases _ refl),
  )

  free : sub.current_period_end * seconds_a_day ≤ now → upgrade_charge now cycle sub new ≡ 0
  unfolding prorated
  free late =
      let none_left : days_remaining now sub ≡ 0 = grind arith in
      let positive = total-positive sub in rw none_left (grind arith)

  -- An upgrade after the period's end costs nothing, whatever the plans cost: it leaves the wallets
  -- as they are, and makes the subscription active on the new plan, even one that was suspended
  -- because its price was not paid.
  pub change_subscription-late :
      sub.current_period_end * seconds_a_day ≤ now
      → let (r, a') = change_subscription now tenant plan cycle user a in
        (r ≡ ok (immediate 0)) × (a'.book ≡ a.book) × Upgraded cycle sub new w 0 a a'
  change_subscription-late late =
      let same : w.balance ≡ w.balance -ℤ pos 0 = omega int_laws in
      rw (is_upgrade, free late)
        (
          refl,
          refl,
          record {
            row = update_found sub.id sub _ a.plan.subscriptions (λ y. refl) by_id;
            paid = has_wallet ∙ ap (λ z. some (record w { balance = z })) same;
            access = refl;
          },
        )
