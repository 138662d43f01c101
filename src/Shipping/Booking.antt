-- ===== src/Shipping/Booking.antt =====
-- `createShipment`, in three stages that follow its numbered steps.
use saas_frontend.Base.{
  ℕ, ◌+◌, Bool, true, false, ◌&&◌, not, Option, none, some, [], ◌∷◌, ◌++◌, pure, throw, gets,
  or_throw, throw_if, ◌>>=◌, ◌>>◌, ◌==◌, ltb, if◌then◌else◌, find_one, update_where,
}
use saas_frontend.Base.Int.{ℤ, same_ℤ}
use saas_frontend.Base.Text.{Text}
use saas_frontend.Status.Shipments.{ShipmentStatus, created, awb_generated, system}
use saas_frontend.Status.Orders.{same_status, ready_to_ship, shipped}
use saas_frontend.Wallet
use saas_frontend.Wallet.{shipment_debit}
use saas_frontend.Plan
use saas_frontend.Plan.{max_orders_per_month}
use saas_frontend.Billing.Documents
use saas_frontend.Shipping.Defs.{
  Order, RateQuote, CourierProvider, Shipment, Db, BookingRequest, BookingData, Reply, answered,
  refused, thrown, World, courier_booked, audit_shipment_created, event_shipment_created,
  order_not_found, order_not_shippable, no_matching_quote, quote_expired, provider_not_found,
  adapter_unavailable, courier_booking_failed, duplicate_order_id,
}
use saas_frontend.Shipping.Session.{Call, in_transaction, write, act, on_wallet, on_plan_outside}

-- The arguments of `createShipment`.
pub record Request : Type 0 where
  pub order_id : ℕ
  pub courier_provider_id : ℕ
  pub service_type : ℕ
  pub quoted_rate : ℤ

abbrev pub order_of : ℕ → ℕ → Db → Option Order
order_of id tenant db = find_one (λ o. (o.id == id) && (o.tenant_id == tenant)) db.orders

-- `where: { order_id, courier_provider_id, service_type, price: quoted_rate }`
abbrev pub matches_quote : Request → RateQuote → Bool
matches_quote req q =
    (q.order_id == req.order_id)
    && ((q.courier_provider_id == req.courier_provider_id)
        && ((q.service_type == req.service_type) && same_ℤ q.price req.quoted_rate))

abbrev pub provider_of : ℕ → Db → Option CourierProvider
provider_of id db = find_one (λ p. p.id == id) db.providers

-- What the checks find.
pub record Cleared : Type 0 where
  pub order : Order
  pub quote : RateQuote
  pub provider : CourierProvider

-- Steps 1 to 3.
unfoldable pub clear : World → Request → ℕ → Call Cleared
unfolding on_wallet on_plan_outside
clear world req tenant = do
  order ← or_throw (← gets (λ s. order_of req.order_id tenant s.view)) order_not_found
  throw_if (not (same_status order.status ready_to_ship)) (order_not_shippable order.status)
  quote ← or_throw (← gets (λ s. find_one (matches_quote req) s.view.quotes)) no_matching_quote
  throw_if (ltb quote.expires_at world.now) quote_expired
  on_wallet (Wallet.check_balance_for_shipment tenant (some req.quoted_rate))
  on_plan_outside (Plan.check_limit tenant max_orders_per_month)
  provider ← or_throw (← gets (λ s. provider_of req.courier_provider_id s.view)) provider_not_found
  throw_if (not provider.is_active) provider_not_found
  throw_if (not (world.opens provider.id)) adapter_unavailable
  pure (record { order = order; quote = quote; provider = provider })

-- `order.cod_amount ? parseFloat(order.cod_amount) : 0`
abbrev pub cod_or_zero : Option ℕ → ℕ
cod_or_zero none = 0
cod_or_zero (some n) = n

abbrev pub booking_request : Request → Order → BookingRequest
booking_request req order = record {
  order_reference = order.order_reference;
  order_value = order.order_value;
  is_cod = order.is_cod;
  cod_amount = cod_or_zero order.cod_amount;
  weight_g = order.weight_g;
  pickup_address = order.pickup_address_id;
  service_type = req.service_type;
}

abbrev pub booked : ℕ → ℕ → Reply BookingData → Call BookingData
booked order provider (answered d) = act (courier_booked order provider) >> pure d
booked order provider refused = throw courier_booking_failed
booked order provider thrown = throw courier_booking_failed

-- Step 4: the courier is asked, while the transaction is open.
unfoldable pub book_with_courier : World → Request → Cleared → Call BookingData
book_with_courier world req c =
    booked c.order.id c.provider.id
      (world.create_shipment c.provider.id (booking_request req c.order))

-- Step 5: a label on the web is copied to the file store; if that fails its own address serves.
abbrev pub rehosted_label : World → Option Text → Option Text
rehosted_label world none = none
rehosted_label world (some url) =
    if world.is_http url
    then elim (world.rehost url) [ some mine ↦ some mine | none ↦ some url ]
    else some url

-- `awbNumber ? 'awb_generated' : 'created'`, an empty number counting as none
abbrev pub first_status : Option Text → ShipmentStatus
first_status none = created
first_status (some []) = created
first_status (some (c ∷ s)) = awb_generated

-- `awbNumber || null`
abbrev pub or_null : Option Text → Option Text
or_null none = none
or_null (some []) = none
or_null (some (c ∷ s)) = some (c ∷ s)

abbrev pub new_shipment : World → Request → ℕ → ℕ → Cleared → BookingData → ℕ → Shipment
new_shipment world req tenant user c d id = record {
  id = id;
  tenant_id = tenant;
  order_id = req.order_id;
  courier_provider_id = req.courier_provider_id;
  pickup_address_id = c.order.pickup_address_id;
  awb_number = or_null d.awb_number;
  courier_shipment_id = or_null d.courier_shipment_id;
  service_type = req.service_type;
  selected_rate = req.quoted_rate;
  cod_charge = c.quote.cod_charge;
  declared_weight_g = c.order.weight_g;
  is_delayed_flag = false;
  status = first_status d.awb_number;
  label_url = or_null (rehosted_label world d.label_url);
  estimated_delivery_date = d.estimated_pickup_date;
  created_by = user;
}

-- `shipments.order_id` is unique.
abbrev pub shipment_for_order : ℕ → Db → Option Shipment
shipment_for_order order db = find_one (λ s. s.order_id == order) db.shipments

abbrev pub is_some : {A : Type 0} → Option A → Bool
is_some none = false
is_some (some a) = true

-- Steps 7 and 8: the histories, and the order's status.
abbrev pub mark_shipped : Shipment → ℕ → ℕ → Db → Db
mark_shipped sh order user db = record db {
  shipment_history =
      (elim sh.awb_number [
        | none ↦ []
        | some awb ↦
            record {
              shipment_id = sh.id;
              old_status = some created;
              new_status = awb_generated;
              source = system;
            }
            ∷ []
      ])
      ++ record { shipment_id = sh.id; old_status = none; new_status = created; source = system }
        ∷ db.shipment_history;
  orders = update_where (λ o. o.id == order) (λ o. record o { status = shipped }) db.orders;
  order_history =
      record {
        order_id = order;
        old_status = ready_to_ship;
        new_status = shipped;
        changed_by = some user;
      }
      ∷ db.order_history;
}

-- Steps 6 to 9.
unfoldable pub record_shipment : World → Request → ℕ → ℕ → Cleared → BookingData → Call Shipment
unfolding on_wallet
record_shipment world req tenant user c d = do
  taken ← gets (λ s. is_some (shipment_for_order req.order_id s.view))
  throw_if taken duplicate_order_id
  id ← gets (λ s. s.view.next_id)
  let sh = new_shipment world req tenant user c d id
  write (λ db. record db { shipments = sh ∷ db.shipments; next_id = db.next_id + 1 })
  on_wallet (Wallet.debit tenant (some req.quoted_rate) shipment_debit (some id) (some user))
  write (λ db. record db {
    billing =
        Documents.create_shipment_invoice world.billing tenant none id req.quoted_rate db.billing;
  })
  write (λ db. record db { plan = Plan.increment_usage tenant max_orders_per_month 1 db.plan })
  write (mark_shipped sh c.order.id user)
  act (audit_shipment_created tenant id req.quoted_rate)
  act (event_shipment_created tenant d.awb_number)
  pure sh

-- `createShipment`
unfoldable pub create_shipment : World → Request → ℕ → ℕ → Call Shipment
unfolding in_transaction
create_shipment world req tenant user = in_transaction do
  c ← clear world req tenant
  d ← book_with_courier world req c
  record_shipment world req tenant user c d
