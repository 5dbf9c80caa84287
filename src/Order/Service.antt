-- ===== src/Order/Service.antt =====
-- `cancel_order`, `ship_order`, `deliver_order` and `get_for_user` of services/order/app/services.py.
use inventory_management_sys.Prelude.{
  Bool, true, ◌&&◌, not, none, some, String, lookup, Uuid, Datetime, ◌==◌, if◌then◌else◌,
}
use inventory_management_sys.Common.Errors.{Error, Result, ok, err, ◌>>=◌}
use inventory_management_sys.Common.OrderStatus.{OrderStatus, is_in, customer_cancellable}
use inventory_management_sys.Order.Models.{OrderDb, Order}
use inventory_management_sys.Order.Saga.{transition, cancel}
use inventory_management_sys.Order.Consumer.{with_row}

-- The row behind the ownership check.
unfoldable pub get_for_user : Uuid → Uuid → Bool → OrderDb → Result Order
get_for_user order_id caller_id is_admin db = elim (lookup order_id db.orders) [
  | none ↦ err Error.not_found
  | some order ↦
      if not is_admin && not (order.user_id == caller_id) then err Error.forbidden else ok order
]

unfoldable pub cancel_order : Datetime → Uuid → Uuid → Bool → String → OrderDb → Result OrderDb
unfolding get_for_user customer_cancellable
cancel_order now order_id caller_id is_admin reason db = do
  order ← get_for_user order_id caller_id is_admin db
  if is_in order.status customer_cancellable
      then with_row order_id order (cancel now reason (if is_admin then "admin" else "customer")) db
      else err Error.conflict

-- `get_for_update`, or NotFoundError, and a strict transition
unfoldable pub admin_move : Datetime → OrderStatus → String → Uuid → OrderDb → Result OrderDb
admin_move now target reason order_id db = elim (lookup order_id db.orders) [
  | none ↦ err Error.not_found
  | some order ↦ with_row order_id order (transition now target (some reason) true) db
]

unfoldable pub ship_order : Datetime → Uuid → OrderDb → Result OrderDb
unfolding admin_move
ship_order now order_id db = admin_move now OrderStatus.shipped "dispatched" order_id db

unfoldable pub deliver_order : Datetime → Uuid → OrderDb → Result OrderDb
unfolding admin_move
deliver_order now order_id db = admin_move now OrderStatus.delivered "delivered" order_id db
