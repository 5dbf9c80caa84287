-- ===== src/Order/Models.antt =====
-- The tables of services/order/app/models.py that the saga and checkout use.
use inventory_management_sys.Prelude.{ℕ, Bool, List, Option, String, Dict, Uuid, Datetime, Decimal}
use inventory_management_sys.Common.Events.{Address, PaymentMethod}
use inventory_management_sys.Common.Outbox.{OutboxRow}
use inventory_management_sys.Common.OrderStatus.{OrderStatus}

pub record OrderItem : Type 0 where
  pub product_id : Uuid
  pub sku : String
  pub name : String
  pub unit_price : Decimal
  pub quantity : ℕ

pub record OrderStatusHistory : Type 0 where
  pub from_status : Option OrderStatus
  pub to_status : OrderStatus
  pub reason : Option String

-- A row of `orders` with its items and its history, the newest row first. `correlation_id`, which
-- only traces events, and the time stamps of TimestampMixin are left out.
pub record Order : Type 0 where
  pub id : Uuid
  pub user_id : Uuid
  pub status : OrderStatus
  pub total_amount : Decimal
  pub currency : String
  pub shipping_address : Address
  pub payment_method : PaymentMethod
  pub idempotency_key : Option String
  pub failure_reason : Option String
  pub completed_at : Option Datetime
  pub items : List OrderItem
  pub history : List OrderStatusHistory

pub record ProductSnapshot : Type 0 where
  pub product_id : Uuid
  pub sku : String
  pub name : String
  pub price : Decimal
  pub currency : String
  pub is_active : Bool

pub record OrderDb : Type 0 where
  pub orders : Dict Order
  pub products : Dict ProductSnapshot
  pub outbox : List OutboxRow
