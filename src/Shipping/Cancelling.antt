-- ===== src/Shipping/Cancelling.antt =====
-- `cancelShipment`, in the order of its numbered steps. The shipment is read before the lock of the
-- wallet is taken, and not again: a call is modelled that no other one of the same shipment overlaps.
use saas_frontend.Base.{
  ℕ, ◌&&◌, not, Option, none, some, List, [], ◌∷◌, pure, throw, gets, or_throw, throw_if, ◌>>=◌,
  ◌>>◌, ◌==◌, find_one, update_where, contains,
}
use saas_frontend.Status.Shipments.{
  ShipmentStatus, same_status, created, awb_generated, pickup_scheduled, cancelled, manual,
}
use saas_frontend.Status.Orders.{ready_to_ship}
use saas_frontend.Wallet
use saas_frontend.Wallet.{shipment_refund}
use saas_frontend.Billing.Documents
use saas_frontend.Shipping.Defs.{
  Order, Shipment, Db, Reply, answered, refused, thrown, World, courier_cancelled,
  audit_shipment_cancelled, event_shipment_cancelled, shipment_not_found, shipment_not_cancellable,
  provider_not_found, adapter_unavailable, courier_cancel_failed,
}
use saas_frontend.Shipping.Session.{Call, in_transaction, write, act, on_wallet}
use saas_frontend.Shipping.Booking.{provider_of}

abbrev pub shipment_of : ℕ → ℕ → Db → Option Shipment
shipment_of id tenant db = find_one (λ s. (s.id == id) && (s.tenant_id == tenant)) db.shipments

-- `cancellableStatuses`
abbrev pub cancellable_statuses : List ShipmentStatus
cancellable_statuses = created ∷ awb_generated ∷ pickup_scheduled ∷ []

-- Steps 1 and 2, and the provider.
unfoldable pub find_cancellable : World → ℕ → ℕ → Call Shipment
find_cancellable world id tenant = do
  sh ← or_throw (← gets (λ s. shipment_of id tenant s.view)) shipment_not_found
  throw_if (not (contains same_status cancellable_statuses sh.status))
      (shipment_not_cancellable sh.status)
  provider ← or_throw (← gets (λ s. provider_of sh.courier_provider_id s.view)) provider_not_found
  throw_if (not (world.opens provider.id)) adapter_unavailable
  pure sh

abbrev pub unbooked : ℕ → Reply (Unit {0}) → Call (Unit {0})
unbooked id (answered u) = act (courier_cancelled id)
unbooked id refused = throw courier_cancel_failed
unbooked id thrown = throw courier_cancel_failed

-- Step 3: the courier is asked.
unfoldable pub cancel_with_courier : World → Shipment → Call (Unit {0})
cancel_with_courier world sh =
    unbooked sh.id (world.cancel_shipment sh.courier_provider_id sh.awb_number)

-- The shipment's row and its history.
abbrev pub mark_cancelled : Shipment → Db → Db
mark_cancelled sh db = record db {
  shipments = update_where (λ s. s.id == sh.id) (λ s. record s { status = cancelled }) db.shipments;
  shipment_history =
      record {
        shipment_id = sh.id;
        old_status = some sh.status;
        new_status = cancelled;
        source = manual;
      }
      ∷ db.shipment_history;
}

-- Step 5: the order's row and its history.
abbrev pub reopen_order : ℕ → Option Order → Db → Db
reopen_order user none db = db
reopen_order user (some order) db = record db {
  orders =
      update_where (λ o. o.id == order.id) (λ o. record o { status = ready_to_ship }) db.orders;
  order_history =
      record {
        order_id = order.id;
        old_status = order.status;
        new_status = ready_to_ship;
        changed_by = some user;
      }
      ∷ db.order_history;
}

-- Steps 4 to 6. The order is the one that step 1 read with the shipment.
unfoldable pub record_cancellation : World → ℕ → ℕ → Shipment → Call (Unit {0})
unfolding on_wallet
record_cancellation world tenant user sh = do
  order ← gets (λ s. find_one (λ o. o.id == sh.order_id) s.view.orders)
  write (mark_cancelled sh)
  on_wallet (Wallet.credit tenant (some sh.selected_rate) shipment_refund (some sh.id) (some user))
  write (λ db. record db {
    billing = Documents.create_cancellation_credit_note world.billing sh.id db.billing;
  })
  write (reopen_order user order)
  act (audit_shipment_cancelled tenant sh.id)
  act (event_shipment_cancelled tenant sh.selected_rate)

-- `cancelShipment`
unfoldable pub cancel_shipment : World → ℕ → ℕ → ℕ → Call (Unit {0})
unfolding in_transaction
cancel_shipment world id tenant user = in_transaction do
  sh ← find_cancellable world id tenant
  cancel_with_courier world sh
  record_cancellation world tenant user sh
