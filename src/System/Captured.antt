-- ===== src/System/Captured.antt =====
-- Across the order and payment services: what a paid status promises.
use inventory_management_sys.Prelude.{
  ◌≡◌, ◌≤◌, sym, ap, subst, ◌∙◌, inl, inr, true, some, String, List, [], ◌∷◌, lookup, Uuid, arith,
}
use inventory_management_sys.Common.Events.{Payload}
use inventory_management_sys.Common.Outbox.{OutboxRow}
use inventory_management_sys.Inventory.Models.{Settings}
use inventory_management_sys.Order.Consumer as OrderConsumer
use inventory_management_sys.Order.History as OrderHistory
use inventory_management_sys.Order.Unpaid.{paid_in}
use inventory_management_sys.Order.Unpaid.Steps.{Step-paid_in}
use inventory_management_sys.Payment.Invariant.{times_captured}
use inventory_management_sys.Payment.Announced.{
  times_announced, announces, announced_as_captured, times_announced-le,
}
use inventory_management_sys.Payment.History as PaymentHistory
use inventory_management_sys.Payment.History.{captured_once}
use inventory_management_sys.System.{
  System, order_message, Sent, OrderHears, order_acts, inventory_acts, payment_acts, Reach, here,
  next,
}

-- Each service of a reached system is in a state that its own history reaches.
orders_reached :
    {upper : String → String} {settings : Settings} {s : System}
    → Reach upper settings s
    → OrderHistory.Reach s.orders
orders_reached here = OrderHistory.here
orders_reached (next before (order_acts step h i p)) =
    OrderHistory.next (orders_reached before) step
orders_reached (next before (inventory_acts step h o p)) =
    subst OrderHistory.Reach (sym o) (orders_reached before)
orders_reached (next before (payment_acts step h o i)) =
    subst OrderHistory.Reach (sym o) (orders_reached before)

pub payments_reached :
    {upper : String → String} {settings : Settings} {s : System}
    → Reach upper settings s
    → PaymentHistory.Reach s.payments
payments_reached here = PaymentHistory.here
payments_reached (next before (order_acts step h i p)) =
    subst PaymentHistory.Reach (sym p) (payments_reached before)
payments_reached (next before (inventory_acts step h o p)) =
    subst PaymentHistory.Reach (sym p) (payments_reached before)
payments_reached (next before (payment_acts step h o i)) =
    PaymentHistory.next (payments_reached before) step

-- An event that the order service takes for a payment of o announces a charge for o.
announces_of_message :
    (o : Uuid) (payload : Payload)
    → order_message payload ≡ some (OrderConsumer.Message.payment_succeeded o)
    → announces o payload ≡ 1
announces_of_message o (Payload.succeeded event) e =
    let same : event.order_id ≡ o = cc in ground (arith, same)
announces_of_message o (Payload.reserved event) e = absurd (cc)
announces_of_message o (Payload.reservation_failed event) e = absurd (cc)
announces_of_message o (Payload.failed event) e = absurd (cc)
announces_of_message o (Payload.product_upserted event) e = absurd (cc)
announces_of_message o (Payload.user_registered event) e = absurd (cc)
announces_of_message o (Payload.created event) e = absurd (cc)
announces_of_message o (Payload.confirmed event) e = absurd (cc)
announces_of_message o (Payload.cancelled event) e = absurd (cc)
announces_of_message o (Payload.stock_changed event) e = absurd (cc)
announces_of_message o (Payload.low_stock event) e = absurd (cc)
announces_of_message o (Payload.refunded event) e = absurd (cc)

Sent-announced :
    (o : Uuid) (rows : List OutboxRow)
    → Sent order_message (OrderConsumer.Message.payment_succeeded o) rows
    → 1 ≤ times_announced o rows
unfolding times_announced
Sent-announced o [] h = elim h [ ]
Sent-announced o (row ∷ rows) (inl e) = omega (arith, announces_of_message o row.payload e)
Sent-announced o (row ∷ rows) (inr h) = omega (arith, Sent-announced o rows h)

paid-announced :
    {upper : String → String} {settings : Settings} {s : System}
    → Reach upper settings s
    → (o : Uuid) → paid_in o s.orders ≡ true
    → 1 ≤ times_announced o s.payments.outbox
unfolding paid_in lookup
paid-announced here o h = absurd (cc)
paid-announced (next {s} {t} before (order_acts step hears i p)) o h =
    elim (Step-paid_in step o h) [
      | inl was ↦ rw p (paid-announced before o was)
      | inr paid ↦ rw p (Sent-announced o s.payments.outbox (subst (OrderHears s) paid hears))
    ]
paid-announced (next {s} {t} before (inventory_acts step hears same p)) o h =
    rw p (paid-announced before o (ap (paid_in o) (sym same) ∙ h))
paid-announced (next {s} {t} before (payment_acts step hears same i)) o h =
    let old = paid-announced before o (ap (paid_in o) (sym same) ∙ h) in
    omega (arith, old, times_announced-le (payments_reached before) step o)

-- In every state that the three services reach together from empty tables, by committed
-- transactions of each in any order, where a saga event is handled only if the service that owns
-- its topic has enqueued it, but then late, out of order and any number of times, an order in a
-- paid status has had its money taken by the provider exactly once.
pub paid_order_captured :
    {upper : String → String} {settings : Settings} {s : System}
    → Reach upper settings s
    → (o : Uuid) → paid_in o s.orders ≡ true
    → times_captured o s.payments.captured ≡ 1
paid_order_captured r o h = omega (
  arith,
  paid-announced r o h,
  announced_as_captured (payments_reached r) o,
  captured_once (payments_reached r) o,
)
