-- ===== src/Shipping/Tests.antt =====
-- A tenant with one order, a quote, a provider, a plan and money; runs, and instances of the theorems.
use saas_frontend.Base.{
  ◌+◌, ◌*◌, ◌/◌, ◌≡◌, refl, Bool, true, false, none, some, [], ◌∷◌, Result, ok, err, ◌⊎◌,
}
use saas_frontend.Base.Int.{pos, ◌+ℤ◌, ◌-ℤ◌}
use saas_frontend.Base.Text.{codes}
use saas_frontend.Status.Shipments.{awb_generated}
use saas_frontend.Status.Orders.{ready_to_ship}
use saas_frontend.Wallet.{WalletRow, wallet_of, check_balance_for_shipment, debit, credit}
use saas_frontend.Plan
use saas_frontend.Plan.{basic, active, monthly, max_orders_per_month, check_limit, increment_usage}
use saas_frontend.Billing.Tax.{calculate_tax, split, is_intra_state}
use saas_frontend.Billing.Numbering.{generate_next_number}
use saas_frontend.Billing.Documents.{create_shipment_invoice, create_cancellation_credit_note}
use saas_frontend.Shipping.Defs.{
  Order, RateQuote, Shipment, Db, answered, refused, World, order_not_found, courier_cancel_failed,
  duplicate_order_id, courier_booked,
}
use saas_frontend.Shipping.Session.{Session}
use saas_frontend.Shipping.Booking.{
  Request, Cleared, create_shipment, clear, book_with_courier, record_shipment,
}
use saas_frontend.Shipping.Cancelling.{
  cancel_shipment, find_cancellable, cancel_with_courier, record_cancellation,
}
use saas_frontend.Shipping.Atomic.{create_shipment-err}
use saas_frontend.Shipping.Booked.{Booked, create_shipment-Booked}
use saas_frontend.Shipping.RoundTrip.{book_then_cancel, rebook_leaks}

abbrev order : Order
order = record {
  id = 10;
  tenant_id = 1;
  order_reference = codes "R1";
  pickup_address_id = 3;
  order_value = 100000;
  is_cod = false;
  cod_amount = none;
  weight_g = 500;
  status = ready_to_ship;
}

abbrev quote : RateQuote
quote = record {
  order_id = 10;
  courier_provider_id = 5;
  service_type = 0;
  price = pos 4500;
  cod_charge = 0;
  expires_at = 60;
}

abbrev wallet : WalletRow
wallet = record { id = 7; tenant_id = 1; balance = pos 60000; low_balance_threshold = pos 50000 }

abbrev plan : Plan.Tables
plan = record {
  subscriptions =
      record {
        id = 1;
        tenant_id = 1;
        plan = record {
          id = 2;
          slug = codes "starter";
          price_monthly = 99900;
          price_yearly = none;
          max_orders_per_month = some 2;
          max_users = none;
          max_pickup_addresses = none;
          courier_access_tier = basic;
          is_default = false;
        };
        pending_plan = none;
        status = active;
        billing_cycle = monthly;
        auto_renew = true;
        grace_period_ends_at = none;
        current_period_start = 0;
        current_period_end = 30;
      }
      ∷ [];
  tracking = [];
  users = [];
  pickup_addresses = [];
}

abbrev db : Db
db = record {
  book = record { wallets = wallet ∷ []; ledger = []; next_id = 0; effects = [] };
  plan = plan;
  billing = record {
    invoices = [];
    line_items = [];
    credit_notes = [];
    sequences = [];
    next_id = 0;
  };
  orders = order ∷ [];
  quotes = quote ∷ [];
  providers = record { id = 5; is_active = true } ∷ [];
  shipments = [];
  shipment_history = [];
  order_history = [];
  next_id = 100;
}

abbrev start : Session
start = record { committed = db; view = db; wallet_effects = []; effects = [] }

abbrev world : World
world = record {
  now = 50;
  opens = λ p. true;
  create_shipment = λ p r. answered (record {
    awb_number = some (codes "AWB");
    courier_shipment_id = none;
    label_url = none;
    estimated_pickup_date = none;
  });
  cancel_shipment = λ p awb. answered tt;
  is_http = λ u. false;
  rehost = λ u. none;
  billing = record {
    arithmetic = record {
      product = λ amt rate. (amt * rate + 5000) / 10000;
      half = λ n. (n + 1) / 2;
    };
    entity_state = codes "Tamil Nadu";
    entity_gstin = codes "33ABCDE1234F1Z5";
    gst_rate = 1800;
    invoice_prefix = codes "INV";
    year = 2026;
    month = 3;
  };
}

abbrev req : Request
req = record { order_id = 10; courier_provider_id = 5; service_type = 0; quoted_rate = pos 4500 }

-- Everything that a run of the service computes with.
is_ok {ℓ κ} : {E : Type κ} {A : Type ℓ} → Result E A → Bool
unfolding create_shipment clear book_with_courier record_shipment cancel_shipment find_cancellable
    cancel_with_courier record_cancellation check_balance_for_shipment debit credit check_limit
    increment_usage create_shipment_invoice create_cancellation_credit_note calculate_tax split
    is_intra_state generate_next_number ◌+ℤ◌ ◌-ℤ◌
is_ok (ok a) = true
is_ok (err e) = false

abbrev sh : Shipment
sh = record {
  id = 100;
  tenant_id = 1;
  order_id = 10;
  courier_provider_id = 5;
  pickup_address_id = 3;
  awb_number = some (codes "AWB");
  courier_shipment_id = none;
  service_type = 0;
  selected_rate = pos 4500;
  cod_charge = 0;
  declared_weight_g = 500;
  is_delayed_flag = false;
  status = awb_generated;
  label_url = none;
  estimated_delivery_date = none;
  created_by = 9;
}

created : (create_shipment world req 1 9 start).0 ≡ ok sh
unfolding is_ok
created = refl

cancels : (cancel_shipment world 100 1 8 (create_shipment world req 1 9 start).1).0 ≡ ok tt
unfolding is_ok
cancels = refl

-- The tenant has paid 45.00 of its 600.00, and has gone below 560.00 with it.
paid :
    wallet_of 1 (create_shipment world req 1 9 start).1.committed.book
    ≡ some (record wallet { balance = pos 55500 })
unfolding is_ok
paid = refl

-- Two of the orders that the plan allows are used up by two bookings; this is one.
counted :
    (create_shipment world req 1 9 start).1.committed.plan.tracking
    ≡ record { tenant_id = 1; period_start = 0; period_end = 30; orders_count = 1; users_count = 1 }
      ∷ []
unfolding is_ok
counted = refl

create_shipment-Booked_example :
    Booked world req 1 9 db (create_shipment world req 1 9 start).1.committed sh
create_shipment-Booked_example = create_shipment-Booked world req 1 9 start sh created

book_then_cancel_example :
    wallet_of 1
      (cancel_shipment world 100 1 8 (create_shipment world req 1 9 start).1).1.committed.book
    ≡ some wallet
book_then_cancel_example =
    book_then_cancel world world req 1 9 8 start sh wallet refl created cancels

-- The session of a tenant whose order was shipped once before.
abbrev shipped_before : Session
shipped_before = record start { committed = record db { shipments = sh ∷ [] } }

abbrev cleared : Cleared
cleared = record { order = order; quote = quote; provider = record { id = 5; is_active = true } }

clears :
    (clear world req 1 (record shipped_before { view = shipped_before.committed })).0 ≡ ok cleared
unfolding is_ok
clears = refl

rebook_leaks_example :
    let (r, s') = create_shipment world req 1 9 shipped_before in
    (r ≡ err duplicate_order_id) × (s'.effects ≡ courier_booked 10 5 ∷ [])
rebook_leaks_example = rebook_leaks world req 1 9 shipped_before sh cleared _ refl clears refl

unknown_order : (create_shipment world req 2 9 start).0 ≡ err order_not_found
unfolding is_ok
unknown_order = refl

create_shipment-err_example :
    let s' = (create_shipment world req 2 9 start).1 in
    ((s'.committed ≡ db)
      ⊎ (s'.committed ≡ record db { plan = (Plan.check_limit 2 max_orders_per_month plan).1 }))
    × (s'.view ≡ s'.committed)
create_shipment-err_example = create_shipment-err world req 2 9 start order_not_found unknown_order

-- A courier that refuses to cancel.
abbrev stubborn : World
stubborn = record world { cancel_shipment = λ p awb. refused }

not_cancelled : (cancel_shipment stubborn 100 1 8 shipped_before).0 ≡ err courier_cancel_failed
unfolding is_ok
not_cancelled = refl
