-- ===== src/Order/Saga.antt =====
-- `OrderSaga` of services/order/app/saga.py, on the order that the caller has locked and the
-- service's outbox.
pub mod Transition
pub mod Trail
pub mod Handlers
pub mod Confirmed
pub mod Outcomes
use inventory_management_sys.Prelude.{
  ℕ, zero, suc, Bool, true, false, ◌&&◌, not, List, map, ◌∷◌, Option, none, some, String, Uuid,
  Datetime, if◌then◌else◌,
}
use Prim.Native.String.{◌++◌ as append}
use inventory_management_sys.Common.Errors.{Error, Result, ok, err, ◌>>=◌}
use inventory_management_sys.Common.Text.{clip}
use inventory_management_sys.Common.Events.{Topic, Payload, LineItem}
use inventory_management_sys.Common.Outbox.{OutboxRow, enqueue_event}
use inventory_management_sys.Common.OrderStatus.{
  OrderStatus, same_status, is_in, can_transition, is_terminal, paid_statuses,
}
use inventory_management_sys.Order.Models.{Order, OrderItem}

-- What one transaction of the saga works on.
pub record SagaState : Type 0 where
  pub order : Order
  pub outbox : List OutboxRow

-- `if reason:`
abbrev pub is_text : Option String → Bool
is_text none = false
is_text (some String.[]) = false
is_text (some (String.◌∷◌ _ _)) = true

abbrev pub is_none {ℓ} : {A : Type ℓ} → Option A → Bool
is_none none = true
is_none (some _) = false

-- The writes of a legal transition.
unfoldable pub move : Datetime → OrderStatus → Option String → Order → Order
unfolding is_terminal
move now target reason order = record order {
  status = target;
  failure_reason =
      if is_text reason && same_status target OrderStatus.failed
      then reason
      else order.failure_reason;
  history =
      record { from_status = some order.status; to_status = target; reason = reason }
      ∷ order.history;
  completed_at =
      if is_none order.completed_at && is_terminal target then some now else order.completed_at;
}

-- `transition`
unfoldable pub transition :
    Datetime → OrderStatus → Option String → Bool → SagaState → Result (Bool × SagaState)
unfolding move
transition now target reason strict s =
    if same_status s.order.status target
    then ok (false, s)
    else if can_transition s.order.status target
    then ok (true, record s { order = move now target reason s.order })
    else if strict
    then err Error.invalid_state_transition
    else ok (false, s)

-- `_to_line_item`
abbrev pub to_line_item : OrderItem → LineItem
to_line_item item = record {
  product_id = item.product_id;
  sku = item.sku;
  name = item.name;
  unit_price = item.unit_price;
  quantity = item.quantity;
}

-- `_publish_confirmed`
unfoldable pub publish_confirmed : Datetime → SagaState → SagaState
publish_confirmed now s = record s {
  outbox =
      enqueue_event Topic.order_confirmed s.order.id
        (Payload.confirmed (record {
          order_id = s.order.id;
          user_id = s.order.user_id;
          total_amount = s.order.total_amount;
          currency = s.order.currency;
          items = map to_line_item s.order.items;
          confirmed_at = now;
        }))
        s.order.id s.outbox;
}

-- `_publish_cancelled`
unfoldable pub publish_cancelled : String → Bool → SagaState → SagaState
publish_cancelled reason was_paid s = record s {
  outbox =
      enqueue_event Topic.order_cancelled s.order.id
        (Payload.cancelled (record {
          order_id = s.order.id;
          user_id = s.order.user_id;
          reason = reason;
          was_paid = was_paid;
          items = map to_line_item s.order.items;
        }))
        s.order.id s.outbox;
}

unfoldable pub on_inventory_reserved : Datetime → SagaState → Result (Bool × SagaState)
on_inventory_reserved now s =
    transition now OrderStatus.inventory_reserved (some "stock reserved") false s

-- The rest of `on_payment_succeeded` once the order is PAID.
unfoldable pub confirm : Datetime → Bool × SagaState → Result (Bool × SagaState)
unfolding publish_confirmed
confirm now (false, s) = ok (false, s)
confirm now (true, s) = do
  confirmed ← transition now OrderStatus.confirmed (some "order confirmed") true s
  ok (true, publish_confirmed now confirmed.1)

unfoldable pub on_payment_succeeded : Datetime → SagaState → Result (Bool × SagaState)
on_payment_succeeded now s = do
  paid ← transition now OrderStatus.paid (some "payment captured") false s
  confirm now paid

-- `if moved: await self._publish_cancelled(…)`
unfoldable pub announce : String → Bool → Bool × SagaState → Bool × SagaState
unfolding publish_cancelled
announce reason was_paid (moved, s) =
    (moved, if moved then publish_cancelled reason was_paid s else s)

unfoldable pub on_payment_failed :
    Datetime → String → String → SagaState → Result (Bool × SagaState)
unfolding announce
on_payment_failed now failure_code message s = do
  moved ←
      transition now OrderStatus.failed
        (some (clip 500 (append "payment failed (" (append failure_code (append "): " message)))))
        false s
  ok (announce (append "payment failed: " failure_code) false moved)

unfoldable pub on_reservation_failed : Datetime → String → SagaState → Result (Bool × SagaState)
on_reservation_failed now reason s =
    transition now OrderStatus.failed (some (clip 500 (append "out of stock: " reason))) false s

unfoldable pub cancel : Datetime → String → String → SagaState → Result (Bool × SagaState)
unfolding announce paid_statuses
cancel now reason actor s = do
  moved ←
      transition now OrderStatus.cancelled
        (some (clip 500 (append "cancelled by " (append actor (append ": " reason))))) true s
  ok (announce reason (is_in s.order.status paid_statuses) moved)
