-- ===== src/Subscribing/Tests.antt =====
-- A tenant on a plan of 999 rupees with a small wallet, and instances of the theorems.
use saas_frontend.Base.{
  ◌/◌, ℕ, ◌+◌, ◌*◌, ◌≤◌, ◌≡◌, refl, ◌⊎◌, true, false, none, some, List, [], ◌∷◌, ◌++◌, ok, arith,
}
use saas_frontend.Base.Int.{int_laws, ◌-ℤ◌, pos}
use saas_frontend.Base.Text.{codes}
use saas_frontend.Wallet.{WalletRow, debit}
use saas_frontend.Plan.{basic, standard, SubscriptionPlan, Subscription, active, suspended, monthly}
use saas_frontend.Subscribing.Defs.{Courier, CourierAccess, Accounts, Clock}
use saas_frontend.Subscribing.Changing.{prorated, immediate, change_subscription}
use saas_frontend.Subscribing.Suspends.{
  IsUnpaid, renewals, renewals-suspend, in_grace, subscription_by_id,
}
use saas_frontend.Subscribing.Upgrade.{
  Paid, Unpaid, Upgraded, change_subscription-upgrade, change_subscription-late,
}

abbrev free : SubscriptionPlan
free = record {
  id = 1;
  slug = codes "free";
  price_monthly = 0;
  price_yearly = none;
  max_orders_per_month = some 50;
  max_users = some 1;
  max_pickup_addresses = some 1;
  courier_access_tier = basic;
  is_default = true;
}

abbrev starter : SubscriptionPlan
starter = record free {
  id = 2;
  slug = codes "starter";
  price_monthly = 99900;
  max_orders_per_month = some 500;
  courier_access_tier = standard;
  is_default = false;
}

abbrev growth : SubscriptionPlan
growth = record starter { id = 3; slug = codes "growth"; price_monthly = 499900 }

abbrev sub : Subscription
sub = record {
  id = 7;
  tenant_id = 1;
  plan = starter;
  pending_plan = none;
  status = active;
  billing_cycle = monthly;
  auto_renew = true;
  grace_period_ends_at = none;
  current_period_start = 100;
  current_period_end = 130;
}

abbrev wallet : ℕ → WalletRow
wallet n = record { id = 1; tenant_id = 1; balance = pos n; low_balance_threshold = pos 0 }

abbrev couriers : List Courier
couriers =
    record { id = 5; min_plan_tier = some standard } ∷ record { id = 6; min_plan_tier = none } ∷ []

abbrev accounts : ℕ → Accounts
accounts n = record {
  book = record { wallets = wallet n ∷ []; ledger = []; next_id = 1; effects = [] };
  plan = record { subscriptions = sub ∷ []; tracking = []; users = []; pickup_addresses = [] };
  plans = free ∷ starter ∷ growth ∷ [];
  couriers = couriers;
  access = [];
  changes = [];
  billing = record {
    invoices = [];
    line_items = [];
    credit_notes = [];
    sequences = [];
    next_id = 1;
  };
  next_id = 8;
}

abbrev had : List CourierAccess
had = record { tenant_id = 1; courier_provider_id = 5 } ∷ []

abbrev day : ℕ → ℕ
day n = n * 86400

abbrev clock_at : ℕ → Clock
clock_at n = record {
  now = day n;
  today = n;
  in_a_month = n + 30;
  in_a_year = n + 365;
  grace_days = 3;
  billing = record {
    arithmetic = record {
      product = λ amt rate. (amt * rate + 5000) / 10000;
      half = λ n. (n + 1) / 2;
    };
    entity_state = codes "Tamil Nadu";
    entity_gstin = codes "";
    gst_rate = 1800;
    invoice_prefix = codes "INV";
    year = 2026;
    month = 3;
  };
}

-- Half of the period is left, so half of the difference is paid.
pays_half :
    (change_subscription (day 115) 1 3 monthly none (accounts 300000)).0 ≡ ok (immediate 200000)
unfolding change_subscription debit ◌-ℤ◌
pays_half = refl

change_subscription-upgrade_example :
    let z = change_subscription (day 115) 1 3 monthly none (accounts 300000) in
    (200000 ≤ 400000)
    × (Paid 200000 monthly sub growth (wallet 300000) (accounts 300000) z
        ⊎ Unpaid 200000 (wallet 300000) (accounts 300000) z)
unfolding prorated
change_subscription-upgrade_example =
    change_subscription-upgrade (day 115) 1 3 monthly none (accounts 300000) sub growth
      (wallet 300000) refl refl refl (omega arith) refl (omega arith) (omega arith)

-- The same change after the end of the period, with an empty wallet.
change_subscription-late_example :
    let (r, a') = change_subscription (day 140) 1 3 monthly none (accounts 0) in
    (r ≡ ok (immediate 0))
    × (a'.book ≡ (accounts 0).book)
    × Upgraded monthly sub growth (wallet 0) 0 (accounts 0) a'
change_subscription-late_example =
    change_subscription-late (day 140) 1 3 monthly none (accounts 0) sub growth (wallet 0) refl refl
      refl (omega arith) refl (omega arith) (omega arith)

unpaid : IsUnpaid 7 sub (accounts 5000)
unpaid = record {
  found = refl;
  renews = refl;
  wallet = wallet 5000;
  has_wallet = refl;
  short = omega (int_laws);
  not_below = omega arith;
}

-- The renewals of the days 130 to 133.
renewals-suspend_example :
    let a' =
      renewals none 7
        (clock_at 130 ∷ (clock_at 131 ∷ clock_at 132 ∷ []) ++ clock_at 133 ∷ [])
        (accounts 5000) in
    (subscription_by_id 7 a' ≡ some (record (in_grace (day 133) sub) { status = suspended }))
    × (a'.book ≡ (accounts 5000).book)
renewals-suspend_example =
    renewals-suspend none 7 sub (clock_at 130) (clock_at 133) (clock_at 131 ∷ clock_at 132 ∷ [])
      (accounts 5000) unpaid refl (omega arith, (omega arith, tt)) (omega arith)
