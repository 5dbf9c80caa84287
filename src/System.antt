-- ===== src/System.antt =====
-- The saga as a whole: the order, inventory and payment services, each with its own database, which
-- only hear of one another by the rows of their outboxes. The publishers and Kafka deliver a row any
-- number of times, late or never, and in any order: an event may be handled if its row was ever
-- enqueued by the service that owns its topic (common/common/events/topics.py).
pub mod Captured
pub mod Late
pub mod Reserved
mod Tests
use inventory_management_sys.Prelude.{◌≡◌, ◌⊎◌, Option, none, some, String, List, [], ◌∷◌, Uuid}
use inventory_management_sys.Common.Events.{Payload}
use inventory_management_sys.Common.Outbox.{OutboxRow}
use inventory_management_sys.Order.Models.{OrderDb}
use inventory_management_sys.Order.Consumer as OrderConsumer
use inventory_management_sys.Order.History as OrderHistory
use inventory_management_sys.Order.Unpaid.Steps.{handled}
use inventory_management_sys.Inventory.Models.{Inventory, Settings}
use inventory_management_sys.Inventory.Consumer as InventoryConsumer
use inventory_management_sys.Inventory.History as InventoryHistory
use inventory_management_sys.Payment.Models.{Payments}
use inventory_management_sys.Payment.Consumer as PaymentConsumer
use inventory_management_sys.Payment.History as PaymentHistory

pub record System : Type 0 where
  pub orders : OrderDb
  pub inventory : Inventory
  pub payments : Payments

-- The tables as the first migrations leave them.
abbrev pub empty : System
empty = record {
  orders = OrderHistory.empty;
  inventory = InventoryHistory.empty;
  payments = PaymentHistory.empty;
}

-- The `handlers` of each consumer: what it makes of a payload.
abbrev pub order_message : Payload → Option OrderConsumer.Message
order_message (Payload.reserved event) =
    some (OrderConsumer.Message.inventory_reserved event.order_id)
order_message (Payload.reservation_failed event) =
    some (OrderConsumer.Message.reservation_failed event.order_id event.reason)
order_message (Payload.succeeded event) =
    some (OrderConsumer.Message.payment_succeeded event.order_id)
order_message (Payload.failed event) =
    some
      (OrderConsumer.Message.payment_failed event.order_id event.failure_code event.failure_message)
order_message (Payload.product_upserted event) = some (OrderConsumer.Message.product_upserted event)
order_message _ = none

abbrev pub inventory_message : Payload → Option InventoryConsumer.Message
inventory_message (Payload.created event) = some (InventoryConsumer.Message.order_created event)
inventory_message (Payload.succeeded event) =
    some (InventoryConsumer.Message.payment_succeeded event)
inventory_message (Payload.failed event) = some (InventoryConsumer.Message.payment_failed event)
inventory_message (Payload.cancelled event) = some (InventoryConsumer.Message.order_cancelled event)
inventory_message _ = none

abbrev pub payment_message : Payload → Option PaymentConsumer.Message
payment_message (Payload.reserved event) = some (PaymentConsumer.Message.inventory_reserved event)
payment_message (Payload.cancelled event) = some (PaymentConsumer.Message.order_cancelled event)
payment_message _ = none

-- Some row of the outbox carries the message.
abbrev pub Sent : {M : Type 0} → (Payload → Option M) → M → List OutboxRow → Type 0
Sent decode m [] = ⊥
Sent decode m (row ∷ rows) = (decode row.payload ≡ some m) ⊎ Sent decode m rows

-- Where a consumer's message comes from: the outbox of the service that owns its topic. The
-- catalogue's events come from outside, and a transaction without an event needs none.
abbrev pub OrderHears : System → Option OrderConsumer.Message → Type 0
OrderHears s (some (OrderConsumer.Message.inventory_reserved o)) =
    Sent order_message (OrderConsumer.Message.inventory_reserved o) s.inventory.outbox
OrderHears s (some (OrderConsumer.Message.reservation_failed o reason)) =
    Sent order_message (OrderConsumer.Message.reservation_failed o reason) s.inventory.outbox
OrderHears s (some (OrderConsumer.Message.payment_succeeded o)) =
    Sent order_message (OrderConsumer.Message.payment_succeeded o) s.payments.outbox
OrderHears s (some (OrderConsumer.Message.payment_failed o code message)) =
    Sent order_message (OrderConsumer.Message.payment_failed o code message) s.payments.outbox
OrderHears s _ = Unit

abbrev pub InventoryHears : System → Option InventoryConsumer.Message → Type 0
InventoryHears s none = Unit
InventoryHears s (some (InventoryConsumer.Message.payment_succeeded event)) =
    Sent inventory_message (InventoryConsumer.Message.payment_succeeded event) s.payments.outbox
InventoryHears s (some (InventoryConsumer.Message.payment_failed event)) =
    Sent inventory_message (InventoryConsumer.Message.payment_failed event) s.payments.outbox
InventoryHears s (some message) = Sent inventory_message message s.orders.outbox

abbrev pub PaymentHears : System → Option PaymentConsumer.Message → Type 0
PaymentHears s none = Unit
PaymentHears s (some (PaymentConsumer.Message.inventory_reserved event)) =
    Sent payment_message (PaymentConsumer.Message.inventory_reserved event) s.inventory.outbox
PaymentHears s (some message) = Sent payment_message message s.orders.outbox

-- The event that a transaction handles, if it handles one.
abbrev pub stock_handled :
    {upper : String → String} {settings : Settings} {s t : Inventory}
    → InventoryHistory.Step upper settings s t
    → Option InventoryConsumer.Message
stock_handled (InventoryHistory.handles o message e) = some message
stock_handled _ = none

abbrev pub charge_handled :
    {s t : Payments} → PaymentHistory.Step s t → Option PaymentConsumer.Message
charge_handled (PaymentHistory.handles o message e) = some message
charge_handled _ = none

-- A committed transaction of one of the services.
pub data Step (upper : String → String) (settings : Settings) (s t : System) : Type 0 where
  order_acts :
      (step : OrderHistory.Step s.orders t.orders)
      → OrderHears s (handled step)
      → t.inventory ≡ s.inventory
      → t.payments ≡ s.payments
      → Step upper settings s t
  inventory_acts :
      (step : InventoryHistory.Step upper settings s.inventory t.inventory)
      → InventoryHears s (stock_handled step)
      → t.orders ≡ s.orders
      → t.payments ≡ s.payments
      → Step upper settings s t
  payment_acts :
      (step : PaymentHistory.Step s.payments t.payments)
      → PaymentHears s (charge_handled step)
      → t.orders ≡ s.orders
      → t.inventory ≡ s.inventory
      → Step upper settings s t

pub data Reach (upper : String → String) (settings : Settings) : System → Type 0 where
  here : Reach upper settings empty
  next : {s t : System} → Reach upper settings s → Step upper settings s t → Reach upper settings t
