-- ===== src/Status/Tests.antt =====
-- Histories of a shipment and of an order, and instances of the theorems.
use saas_frontend.Base.{◌≡◌, refl, ◌↔◌, ◌⊎◌, ok}
use saas_frontend.Status.Shipments
use saas_frontend.Status.Shipments.{
  ShipmentStatus, created, awb_generated, in_transit, History, start, change, Next,
  validate_transition_iff, history-length,
}
use saas_frontend.Status.Orders
use saas_frontend.Status.Orders.{
  OrderStatus, ready_to_ship, shipped, IsCommitted, Reach, here, next, Reach-IsCommitted,
  cancelled-stays,
}

books : Shipments.validate_transition created awb_generated ≡ ok tt
unfolding Shipments.validate_transition
books = refl

cancels : Shipments.validate_transition awb_generated Shipments.cancelled ≡ ok tt
unfolding Shipments.validate_transition
cancels = refl

ships : Orders.validate_transition ready_to_ship shipped ≡ ok tt
unfolding Orders.validate_transition
ships = refl

comes_back : Orders.validate_transition shipped ready_to_ship ≡ ok tt
unfolding Orders.validate_transition
comes_back = refl

stays : Orders.validate_transition Orders.cancelled Orders.cancelled ≡ ok tt
unfolding Orders.validate_transition
stays = refl

validate_transition_iff_example :
    (Shipments.validate_transition created in_transit ≡ ok tt)
    ↔ ((created ≡ in_transit) ⊎ Next created in_transit)
validate_transition_iff_example = validate_transition_iff created in_transit

abbrev booked_and_cancelled : History created 2 Shipments.cancelled
booked_and_cancelled = change (change start books refl) cancels refl

abbrev shipped_again : Reach ready_to_ship ready_to_ship
shipped_again = next (next here ships) comes_back
