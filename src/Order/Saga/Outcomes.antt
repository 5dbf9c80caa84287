-- ===== src/Order/Saga/Outcomes.antt =====
-- What the saga announces: refunds, confirmations, and a payment that arrives too early.
use inventory_management_sys.Prelude.{
  ◌≡◌, ◌≢◌, ◌⊎◌, refl, sym, ◌∙◌, inl, inr, Bool, true, false, ◌∷◌, map, Option, some, String,
  Datetime, arith, Bool-cases,
}
use Prim.Native.String.{◌++◌ as append}
use inventory_management_sys.Common.Errors.{ok}
use inventory_management_sys.Common.Events.{Topic, Payload}
use inventory_management_sys.Common.Outbox.{enqueue_event}
use inventory_management_sys.Common.OrderStatus.{
  OrderStatus, same_status, can_transition, is_in, paid_statuses, customer_cancellable,
}
use inventory_management_sys.Common.OrderStatus.Machine.{
  can_transition-from, customer_cancellable_iff, same_status-can_transition,
}
use inventory_management_sys.Order.Saga.{
  SagaState, transition, on_inventory_reserved, on_payment_succeeded, confirm, cancel, announce,
  publish_cancelled, move, to_line_item,
}
use inventory_management_sys.Common.Text.{clip}
use inventory_management_sys.Order.Saga.Trail.{IsValid, was_paid}
use inventory_management_sys.Order.Saga.Confirmed.{status-cases, on_payment_succeeded-confirms}

-- A legal transition is made.
transition-legal :
    (now : Datetime) (target : OrderStatus) (reason : Option String) (strict : Bool) (s : SagaState)
    → can_transition s.order.status target ≡ true
    → transition now target reason strict s
      ≡ ok (true, record s { order = move now target reason s.order })
unfolding transition
transition-legal now target reason strict s legal =
    elim (Bool-cases (same_status s.order.status target)) [
      | inl same ↦ absurd (ground (arith, same_status-can_transition s.order.status target same))
      | inr differs ↦ ground arith
    ]

-- A valid order in a status that a customer may cancel is cancelled, and the announcement, which
-- is the one new row of the outbox, says that it was paid exactly when the order's history ever
-- entered PAID.
pub cancel-was_paid :
    (now : Datetime) (reason actor : String) (s : SagaState)
    → IsValid s.order
    → is_in s.order.status customer_cancellable ≡ true
    → (t : SagaState) × (cancel now reason actor s ≡ ok (true, t))
      × (t.order.status ≡ OrderStatus.cancelled)
      × (t.outbox
          ≡ enqueue_event Topic.order_cancelled s.order.id
              (Payload.cancelled (record {
                order_id = s.order.id;
                user_id = s.order.user_id;
                reason = reason;
                was_paid = was_paid s.order.history;
                items = map to_line_item s.order.items;
              }))
              s.order.id
              s.outbox)
unfolding cancel announce publish_cancelled move
cancel-was_paid now reason actor s v may =
    let legal = sym (customer_cancellable_iff s.order.status) ∙ may in
    let from = can_transition-from s.order.status OrderStatus.cancelled legal in
    let text = some (clip 500 (append "cancelled by " (append actor (append ": " reason)))) in
    let done = transition-legal now OrderStatus.cancelled text true s legal in
    let paid = v.paid from.2 in
    (
      publish_cancelled reason (is_in s.order.status paid_statuses)
          (record s { order = move now OrderStatus.cancelled text s.order }),
      rw done refl,
      refl,
      rw paid refl,
    )

-- The announcement of a payment changes nothing unless the order is in INVENTORY_RESERVED, and
-- then confirms it in one go: the order is CONFIRMED with the two transitions in its history and
-- is otherwise as it was, one order.confirmed event with its items and its total is enqueued, and
-- a second announcement changes nothing.
pub on_payment_succeeded_lem :
    (now later : Datetime) (s : SagaState)
    → (s.order.status ≢ OrderStatus.inventory_reserved)
        × (on_payment_succeeded now s ≡ ok (false, s))
      ⊎ (s.order.status ≡ OrderStatus.inventory_reserved)
        × ((t : SagaState) × (on_payment_succeeded now s ≡ ok (true, t))
            × (t.order ≡ record s.order {
              status = OrderStatus.confirmed;
              history =
                  record {
                    from_status = some OrderStatus.paid;
                    to_status = OrderStatus.confirmed;
                    reason = some "order confirmed";
                  }
                  ∷ record {
                    from_status = some OrderStatus.inventory_reserved;
                    to_status = OrderStatus.paid;
                    reason = some "payment captured";
                  }
                  ∷ s.order.history;
            })
            × (t.outbox
                ≡ enqueue_event Topic.order_confirmed s.order.id
                    (Payload.confirmed (record {
                      order_id = s.order.id;
                      user_id = s.order.user_id;
                      total_amount = s.order.total_amount;
                      currency = s.order.currency;
                      items = map to_line_item s.order.items;
                      confirmed_at = now;
                    }))
                    s.order.id
                    s.outbox)
            × (on_payment_succeeded later t ≡ ok (false, t)))
unfolding on_payment_succeeded transition confirm
on_payment_succeeded_lem now later s = elim (status-cases s.order.status) [
  | inl reserved ↦ inr (reserved, on_payment_succeeded-confirms now later s reserved)
  | inr (other, refused) ↦ inl (
    other,
    elim (Bool-cases (same_status s.order.status OrderStatus.paid)) [
      | inl same ↦ rw same refl
      | inr differs ↦ rw (differs, refused) refl
    ],
  )
]

-- A payment that is announced for a PENDING order changes nothing, and the reservation that is
-- announced after it leaves the order in INVENTORY_RESERVED with nothing announced.
pub early_payment_lost :
    (now later : Datetime) (s : SagaState)
    → s.order.status ≡ OrderStatus.pending
    → (on_payment_succeeded now s ≡ ok (false, s))
      × ((t : SagaState) × (on_inventory_reserved later s ≡ ok (true, t))
          × (t.order.status ≡ OrderStatus.inventory_reserved)
          × (t.outbox ≡ s.outbox))
unfolding on_payment_succeeded on_inventory_reserved transition confirm can_transition move
early_payment_lost now later s h = (
  rw h refl,
  (
    record s { order = move later OrderStatus.inventory_reserved (some "stock reserved") s.order },
    rw h refl,
    refl,
    refl,
  ),
)
