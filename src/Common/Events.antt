-- ===== src/Common/Events.antt =====
-- Topics and event payloads: common/common/events/topics.py and schemas.py. Tracing metadata of the
-- envelope (event and correlation ids, producer, time stamps) is left out of the payloads here.
use inventory_management_sys.Prelude.{ℕ, Bool, List, Option, String, Uuid, Datetime, Decimal}

pub data Topic : Type 0 where
  user_registered catalog_product_upserted : Topic
  order_created order_confirmed order_cancelled : Topic
  inventory_reserved inventory_reservation_failed : Topic
  inventory_stock_changed inventory_low_stock : Topic
  payment_succeeded payment_failed payment_refunded : Topic

pub record Address : Type 0 where
  pub line1 : String
  pub line2 : Option String
  pub city : String
  pub state : String
  pub postal_code : String
  pub country : String
  pub phone : Option String

pub record LineItem : Type 0 where
  pub product_id : Uuid
  pub sku : String
  pub name : String
  pub unit_price : Decimal
  pub quantity : ℕ

-- `method` is the field `type` of the source.
pub record PaymentMethod : Type 0 where
  pub method : String
  pub token : String
  pub last4 : Option String
  pub label : Option String

pub record UserRegistered : Type 0 where
  pub user_id : Uuid
  pub email : String
  pub full_name : String
  pub registered_at : Datetime

pub record ProductUpserted : Type 0 where
  pub product_id : Uuid
  pub sku : String
  pub name : String
  pub price : Decimal
  pub currency : String
  pub is_active : Bool

pub record OrderCreated : Type 0 where
  pub order_id : Uuid
  pub user_id : Uuid
  pub total_amount : Decimal
  pub currency : String
  pub items : List LineItem
  pub shipping_address : Address
  pub payment_method : PaymentMethod

pub record OrderConfirmed : Type 0 where
  pub order_id : Uuid
  pub user_id : Uuid
  pub total_amount : Decimal
  pub currency : String
  pub items : List LineItem
  pub confirmed_at : Datetime

pub record OrderCancelled : Type 0 where
  pub order_id : Uuid
  pub user_id : Uuid
  pub reason : String
  pub was_paid : Bool
  pub items : List LineItem

pub record ReservedItem : Type 0 where
  pub product_id : Uuid
  pub quantity : ℕ

pub record InventoryReserved : Type 0 where
  pub order_id : Uuid
  pub user_id : Uuid
  pub reservation_id : Uuid
  pub expires_at : Datetime
  pub items : List ReservedItem
  pub total_amount : Decimal
  pub currency : String
  pub payment_method : PaymentMethod

pub record InsufficientItem : Type 0 where
  pub product_id : Uuid
  pub requested : ℕ
  pub available : ℕ

pub record InventoryReservationFailed : Type 0 where
  pub order_id : Uuid
  pub user_id : Uuid
  pub reason : String
  pub insufficient_items : List InsufficientItem

-- The values of the `reason` of a stock movement (LedgerReason of the inventory's models).
pub data LedgerReason : Type 0 where
  reserve release commit restock adjust expire : LedgerReason

pub record StockChanged : Type 0 where
  pub product_id : Uuid
  pub sku : String
  pub available_qty : ℕ
  pub reserved_qty : ℕ
  pub reason : LedgerReason
  pub ref_order_id : Option Uuid

pub record LowStock : Type 0 where
  pub product_id : Uuid
  pub sku : String
  pub available_qty : ℕ
  pub threshold : ℕ

pub record PaymentSucceeded : Type 0 where
  pub order_id : Uuid
  pub user_id : Uuid
  pub payment_id : Uuid
  pub amount : Decimal
  pub currency : String
  pub method : String
  pub provider_ref : String
  pub paid_at : Datetime

pub record PaymentFailed : Type 0 where
  pub order_id : Uuid
  pub user_id : Uuid
  pub payment_id : Option Uuid
  pub amount : Decimal
  pub currency : String
  pub failure_code : String
  pub failure_message : String
  pub retryable : Bool

pub record PaymentRefunded : Type 0 where
  pub order_id : Uuid
  pub user_id : Uuid
  pub payment_id : Uuid
  pub refund_id : Uuid
  pub amount : Decimal
  pub currency : String
  pub reason : String

-- A payload of PAYLOAD_BY_EVENT_TYPE.
pub data Payload : Type 0 where
  user_registered : UserRegistered → Payload
  product_upserted : ProductUpserted → Payload
  created : OrderCreated → Payload
  confirmed : OrderConfirmed → Payload
  cancelled : OrderCancelled → Payload
  reserved : InventoryReserved → Payload
  reservation_failed : InventoryReservationFailed → Payload
  stock_changed : StockChanged → Payload
  low_stock : LowStock → Payload
  succeeded : PaymentSucceeded → Payload
  failed : PaymentFailed → Payload
  refunded : PaymentRefunded → Payload
