-- ===== src/Shipping/Defs.antt =====
-- The tables of the shipment service, what it calls outside, and what can go wrong.
use saas_frontend.Base.{ℕ, Bool, Option, List}
use saas_frontend.Base.Int.{ℤ}
use saas_frontend.Base.Text.{Text}
use saas_frontend.Status.Shipments.{ShipmentStatus, Source}
use saas_frontend.Status.Orders.{OrderStatus}
use saas_frontend.Wallet
use saas_frontend.Plan
use saas_frontend.Billing.Documents

-- A row of `orders`, with the columns that the service reads.
pub record Order : Type 0 where
  pub id : ℕ
  pub tenant_id : ℕ
  pub order_reference : Text
  pub pickup_address_id : ℕ
  pub order_value : ℕ
  pub is_cod : Bool
  pub cod_amount : Option ℕ
  pub weight_g : ℕ
  pub status : OrderStatus

-- A row of `shipment_rate_quotes`. Prices are in paise; a `DECIMAL(10, 2)` may be negative.
pub record RateQuote : Type 0 where
  pub order_id : ℕ
  pub courier_provider_id : ℕ
  pub service_type : ℕ
  pub price : ℤ
  pub cod_charge : ℕ
  pub expires_at : ℕ

pub record CourierProvider : Type 0 where
  pub id : ℕ
  pub is_active : Bool

-- A row of `shipments`.
pub record Shipment : Type 0 where
  pub id : ℕ
  pub tenant_id : ℕ
  pub order_id : ℕ
  pub courier_provider_id : ℕ
  pub pickup_address_id : ℕ
  pub awb_number : Option Text
  pub courier_shipment_id : Option Text
  pub service_type : ℕ
  pub selected_rate : ℤ
  pub cod_charge : ℕ
  pub declared_weight_g : ℕ
  pub is_delayed_flag : Bool
  pub status : ShipmentStatus
  pub label_url : Option Text
  pub estimated_delivery_date : Option ℕ
  pub created_by : ℕ

-- A row of `shipment_status_history`; the status before the first is `null`.
pub record ShipmentChange : Type 0 where
  pub shipment_id : ℕ
  pub old_status : Option ShipmentStatus
  pub new_status : ShipmentStatus
  pub source : Source

-- A row of `order_status_history`.
pub record OrderChange : Type 0 where
  pub order_id : ℕ
  pub old_status : OrderStatus
  pub new_status : OrderStatus
  pub changed_by : Option ℕ

-- The database.
pub record Db : Type 0 where
  pub book : Wallet.Book
  pub plan : Plan.Tables
  pub billing : Documents.Tables
  pub orders : List Order
  pub quotes : List RateQuote
  pub providers : List CourierProvider
  pub shipments : List Shipment
  pub shipment_history : List ShipmentChange
  pub order_history : List OrderChange
  pub next_id : ℕ

-- What the courier is asked to book.
pub record BookingRequest : Type 0 where
  pub order_reference : Text
  pub order_value : ℕ
  pub is_cod : Bool
  pub cod_amount : ℕ
  pub weight_g : ℕ
  pub pickup_address : ℕ
  pub service_type : ℕ

-- `adapterResponse.data` of a booking that succeeded
pub record BookingData : Type 0 where
  pub awb_number : Option Text
  pub courier_shipment_id : Option Text
  pub label_url : Option Text
  pub estimated_pickup_date : Option ℕ

-- A call of a courier: it answers, it answers with `success: false`, or the adapter throws.
pub data Reply (A : Type 0) : Type 0 where
  answered : A → Reply A
  refused : Reply A
  thrown : Reply A

-- The courier adapters, the file store and the clock. `opens` tells of which providers the
-- credentials decrypt and an adapter exists.
pub record World : Type 0 where
  pub now : ℕ
  pub opens : ℕ → Bool
  pub create_shipment : ℕ → BookingRequest → Reply BookingData
  pub cancel_shipment : ℕ → Option Text → Reply (Unit {0})
  pub is_http : Text → Bool
  pub rehost : Text → Option Text
  pub billing : Documents.Config

-- What a call does that no rollback takes back.
pub data Effect : Type 0 where
  courier_booked : ℕ → ℕ → Effect
  courier_cancelled : ℕ → Effect
  audit_shipment_created : ℕ → ℕ → ℤ → Effect
  audit_shipment_cancelled : ℕ → ℕ → Effect
  event_shipment_created : ℕ → Option Text → Effect
  event_shipment_cancelled : ℕ → ℤ → Effect

pub data Error : Type 0 where
  order_not_found : Error
  order_not_shippable : OrderStatus → Error
  no_matching_quote quote_expired : Error
  provider_not_found adapter_unavailable : Error
  courier_booking_failed courier_cancel_failed : Error
  duplicate_order_id : Error
  shipment_not_found : Error
  shipment_not_cancellable : ShipmentStatus → Error
  wallet_error : Wallet.Error → Error
  plan_error : Plan.Error → Error
