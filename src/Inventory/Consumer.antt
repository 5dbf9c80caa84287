-- ===== src/Inventory/Consumer.antt =====
-- services/inventory/app/consumer.py: the saga's events, each handled in one transaction.
use inventory_management_sys.Prelude.{map, pos, ℤ, Uuid}
use inventory_management_sys.Common.Errors.{Result, ok, ◌>>=◌}
use inventory_management_sys.Common.Events.{
  OrderCreated, OrderCancelled, PaymentSucceeded, PaymentFailed, LineItem,
}
use inventory_management_sys.Inventory.Models.{Inventory, Settings}
use inventory_management_sys.Inventory.Settle.{commit_reservation, release_reservation}
use inventory_management_sys.Inventory.Reserve.{ReserveRequest, Outside, reserve}

-- The events that the consumer has a handler for.
pub data Message : Type 0 where
  order_created : OrderCreated → Message
  payment_succeeded : PaymentSucceeded → Message
  payment_failed : PaymentFailed → Message
  order_cancelled : OrderCancelled → Message

abbrev requested : LineItem → Uuid × ℤ
requested item = (item.product_id, pos item.quantity)

-- The arguments that `on_order_created` gives to `reserve`.
unfoldable pub reserve_request : OrderCreated → ReserveRequest
reserve_request event = record {
  order_id = event.order_id;
  user_id = event.user_id;
  items = map requested event.items;
  total_amount = event.total_amount;
  currency = event.currency;
  payment_method = event.payment_method;
}

-- `handlers`
unfoldable pub handle : Settings → Outside → Message → Inventory → Result Inventory
unfolding reserve_request
handle settings o (Message.order_created event) s = do
  done ← reserve settings o (reserve_request event) s
  ok done.1
handle settings o (Message.payment_succeeded event) s = do
  done ← commit_reservation event.order_id s
  ok done.1
handle settings o (Message.payment_failed event) s = do
  done ← release_reservation event.order_id s
  ok done.1
handle settings o (Message.order_cancelled event) s = do
  done ← release_reservation event.order_id s
  ok done.1
