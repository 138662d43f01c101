-- ===== src/Plan/Tests.antt =====
-- A tenant whose plan allows two orders a month, and instances of the theorems.
use saas_frontend.Base.{true, ◌≡◌, refl, false, none, some, [], ◌∷◌, arith}
use saas_frontend.Base.Text.{codes}
use saas_frontend.Plan.Defs.{
  Subscription, Tables, basic, active, monthly, check_limit, increment_usage,
}
use saas_frontend.Plan.Limits.{AtMost, orders_used, book_orders, book_orders-AtMost}

abbrev subscription : Subscription
subscription = record {
  id = 1;
  tenant_id = 1;
  plan = record {
    id = 2;
    slug = codes "starter";
    price_monthly = 99900;
    price_yearly = none;
    max_orders_per_month = some 2;
    max_users = none;
    max_pickup_addresses = none;
    courier_access_tier = basic;
    is_default = false;
  };
  pending_plan = none;
  status = active;
  billing_cycle = monthly;
  auto_renew = true;
  grace_period_ends_at = none;
  current_period_start = 0;
  current_period_end = 30;
}

abbrev tables : Tables
tables = record {
  subscriptions = subscription ∷ [];
  tracking = [];
  users = [];
  pickup_addresses = [];
}

-- Three bookings count twice: the third is refused.
used : orders_used 1 subscription (book_orders 1 3 tables) ≡ 2
unfolding check_limit increment_usage
used = refl

book_orders-AtMost_example : AtMost (some 2) (orders_used 1 subscription (book_orders 1 3 tables))
book_orders-AtMost_example = book_orders-AtMost 1 3 tables subscription refl (omega arith)
