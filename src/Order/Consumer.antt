-- ===== src/Order/Consumer.antt =====
-- services/order/app/consumer.py: the saga's events and the catalogue's, each in one transaction on
-- the order that `_locked_order` finds; an event for an unknown order is skipped.
use inventory_management_sys.Prelude.{Bool, none, some, String, lookup, insert, Uuid, Datetime}
use inventory_management_sys.Common.Errors.{Result, ok, ◌>>=◌}
use inventory_management_sys.Common.Events.{ProductUpserted}
use inventory_management_sys.Order.Models.{OrderDb, Order}
use inventory_management_sys.Order.Saga.{
  SagaState, on_inventory_reserved, on_payment_succeeded, on_payment_failed, on_reservation_failed,
}

-- The saga works on the row and the outbox; the session writes both back.
unfoldable pub with_row :
    Uuid → Order → (SagaState → Result (Bool × SagaState)) → OrderDb → Result OrderDb
with_row order_id order work db = do
  done ← work (record { order = order; outbox = db.outbox })
  ok (record db { orders = insert order_id done.1.order db.orders; outbox = done.1.outbox })

-- `_locked_order` and what a handler does with what it returns
unfoldable pub with_order :
    Uuid → (SagaState → Result (Bool × SagaState)) → OrderDb → Result OrderDb
with_order order_id work db = elim (lookup order_id db.orders) [
  | none ↦ ok db
  | some order ↦ with_row order_id order work db
]

-- The events that the consumer has a handler for.
pub data Message : Type 0 where
  inventory_reserved : Uuid → Message
  reservation_failed : Uuid → String → Message
  payment_succeeded : Uuid → Message
  payment_failed : Uuid → String → String → Message
  product_upserted : ProductUpserted → Message

-- `ProductSnapshotRepository.upsert`
unfoldable pub upsert_snapshot : ProductUpserted → OrderDb → OrderDb
upsert_snapshot event db = record db {
  products =
      insert event.product_id
        (record {
          product_id = event.product_id;
          sku = event.sku;
          name = event.name;
          price = event.price;
          currency = event.currency;
          is_active = event.is_active;
        })
        db.products;
}

-- `handlers`
unfoldable pub handle : Datetime → Message → OrderDb → Result OrderDb
handle now (Message.inventory_reserved order_id) db =
    with_order order_id (on_inventory_reserved now) db
handle now (Message.reservation_failed order_id reason) db =
    with_order order_id (on_reservation_failed now reason) db
handle now (Message.payment_succeeded order_id) db =
    with_order order_id (on_payment_succeeded now) db
handle now (Message.payment_failed order_id failure_code message) db =
    with_order order_id (on_payment_failed now failure_code message) db
handle now (Message.product_upserted event) db = ok (upsert_snapshot event db)
