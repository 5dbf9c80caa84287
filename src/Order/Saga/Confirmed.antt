-- ===== src/Order/Saga/Confirmed.antt =====
-- The two transitions of `on_payment_succeeded` in services/order/app/saga.py.
use inventory_management_sys.Prelude.{
  ◌≡◌, ◌≢◌, ◌⊎◌, refl, ◌∙◌, inl, inr, true, false, ◌&&◌, ◌∷◌, map, ap, Option, none, some, Datetime,
  if◌then◌else◌,
}
use inventory_management_sys.Common.Errors.{ok}
use inventory_management_sys.Common.Events.{Topic, Payload}
use inventory_management_sys.Common.Outbox.{enqueue_event}
use inventory_management_sys.Common.OrderStatus.{OrderStatus, can_transition, is_terminal}
use inventory_management_sys.Order.Models.{Order}
use inventory_management_sys.Order.Saga.{
  SagaState, transition, on_payment_succeeded, confirm, publish_confirmed, move, to_line_item,
  is_none,
}

-- Only a reserved order can be paid.
pub status-cases :
    (status : OrderStatus)
    → (status ≡ OrderStatus.inventory_reserved)
      ⊎ (status ≢ OrderStatus.inventory_reserved) × (can_transition status OrderStatus.paid ≡ false)
unfolding can_transition
status-cases OrderStatus.pending = inr (λ e. absurd (cc), refl)
status-cases OrderStatus.inventory_reserved = inl refl
status-cases OrderStatus.paid = inr (λ e. absurd (cc), refl)
status-cases OrderStatus.confirmed = inr (λ e. absurd (cc), refl)
status-cases OrderStatus.shipped = inr (λ e. absurd (cc), refl)
status-cases OrderStatus.delivered = inr (λ e. absurd (cc), refl)
status-cases OrderStatus.cancelled = inr (λ e. absurd (cc), refl)
status-cases OrderStatus.failed = inr (λ e. absurd (cc), refl)

unended :
    (now : Datetime) (at : Option Datetime) → (if is_none at && false then some now else at) ≡ at
unended now none = refl
unended now (some t) = refl

-- The two moves of a confirmation.
move-confirmed :
    (now : Datetime) (order : Order)
    → order.status ≡ OrderStatus.inventory_reserved
    → move now OrderStatus.confirmed
        (some "order confirmed")
        (move now OrderStatus.paid (some "payment captured") order)
      ≡ record order {
        status = OrderStatus.confirmed;
        history =
            record {
              from_status = some OrderStatus.paid;
              to_status = OrderStatus.confirmed;
              reason = some "order confirmed";
            }
            ∷ record {
              from_status = some OrderStatus.inventory_reserved;
              to_status = OrderStatus.paid;
              reason = some "payment captured";
            }
            ∷ order.history;
      }
unfolding move is_terminal
move-confirmed now order h =
    let after : OrderStatus → Option Datetime → Order = λ from at. record order {
      status = OrderStatus.confirmed;
      history =
          record {
            from_status = some OrderStatus.paid;
            to_status = OrderStatus.confirmed;
            reason = some "order confirmed";
          }
          ∷ record {
            from_status = some from;
            to_status = OrderStatus.paid;
            reason = some "payment captured";
          }
          ∷ order.history;
      completed_at = at;
    } in
    let paid = if is_none order.completed_at && false then some now else order.completed_at in
    ap (after order.status) (unended now paid ∙ unended now order.completed_at)
    ∙ ap (λ from. after from order.completed_at) h

-- An order that has its stock is confirmed by the announcement of its payment.
pub on_payment_succeeded-confirms :
    (now later : Datetime) (s : SagaState)
    → s.order.status ≡ OrderStatus.inventory_reserved
    → (t : SagaState) × (on_payment_succeeded now s ≡ ok (true, t))
      × (t.order ≡ record s.order {
        status = OrderStatus.confirmed;
        history =
            record {
              from_status = some OrderStatus.paid;
              to_status = OrderStatus.confirmed;
              reason = some "order confirmed";
            }
            ∷ record {
              from_status = some OrderStatus.inventory_reserved;
              to_status = OrderStatus.paid;
              reason = some "payment captured";
            }
            ∷ s.order.history;
      })
      × (t.outbox
          ≡ enqueue_event Topic.order_confirmed s.order.id
              (Payload.confirmed (record {
                order_id = s.order.id;
                user_id = s.order.user_id;
                total_amount = s.order.total_amount;
                currency = s.order.currency;
                items = map to_line_item s.order.items;
                confirmed_at = now;
              }))
              s.order.id
              s.outbox)
      × (on_payment_succeeded later t ≡ ok (false, t))
unfolding on_payment_succeeded transition confirm move can_transition is_terminal publish_confirmed
on_payment_succeeded-confirms now later s h = (
  publish_confirmed now (record s {
    order =
        move now OrderStatus.confirmed (some "order confirmed")
          (move now OrderStatus.paid (some "payment captured") s.order);
  }),
  rw h refl,
  move-confirmed now s.order h,
  refl,
  refl,
)
