-- ===== src/Payment/Consumer.antt =====
-- services/payment/app/consumer.py: the saga's events, each handled in one transaction.
use inventory_management_sys.Prelude.{none, if◌then◌else◌}
use Prim.Native.String.{◌++◌ as append}
use inventory_management_sys.Common.Errors.{Error, Result, ok, err, ◌>>=◌}
use inventory_management_sys.Common.Events.{InventoryReserved, OrderCancelled}
use inventory_management_sys.Payment.Models.{Payments}
use inventory_management_sys.Payment.Service.{
  Outside, ChargeRequest, charge_for_order, refund_for_order,
}

-- The events that the consumer has a handler for.
pub data Message : Type 0 where
  inventory_reserved : InventoryReserved → Message
  order_cancelled : OrderCancelled → Message

-- The arguments that `on_inventory_reserved` gives to `charge_for_order`.
unfoldable pub charge_request : InventoryReserved → ChargeRequest
charge_request event = record {
  order_id = event.order_id;
  user_id = event.user_id;
  amount = event.total_amount;
  currency = event.currency;
  method = event.payment_method.method;
  token = event.payment_method.token;
  card_last4 = event.payment_method.last4;
}

-- `except ConflictError` returns, but the flush that failed has left the session's transaction
-- inactive, so that the next statement in it, that of `mark_processed`, raises.
abbrev pub after_conflict : Error → Error
after_conflict Error.conflict = Error.pending_rollback
after_conflict e = e

abbrev pub caught {ℓ} : {A : Type ℓ} → Result A → Result A
caught (ok a) = ok a
caught (err e) = err (after_conflict e)

-- The call of `refund_for_order` in `on_order_cancelled`.
unfoldable pub refunded : Outside → OrderCancelled → Payments → Result Payments
refunded o event s = do
  done ← refund_for_order o event.order_id (append "order cancelled: " event.reason) none s
  ok done.1

-- `handlers`
unfoldable pub handle : Outside → Message → Payments → Result Payments
unfolding charge_request refunded
handle o (Message.inventory_reserved event) s = do
  done ← caught (charge_for_order o (charge_request event) s)
  ok done.1
handle o (Message.order_cancelled event) s = if event.was_paid then refunded o event s else ok s
