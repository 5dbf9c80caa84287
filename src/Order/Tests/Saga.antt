-- ===== src/Order/Tests/Saga.antt =====
-- `OrderSaga` of services/order/app/saga.py on an order that was just placed.
use inventory_management_sys.Prelude.{
  ◌≡◌, ◌≢◌, ◌⊎◌, refl, [], ◌∷◌, none, some, false, true, map, arith,
}
use inventory_management_sys.Common.Errors.{Error, ok, err}
use inventory_management_sys.Common.Events.{Topic, Payload}
use inventory_management_sys.Common.Outbox.{enqueue_event}
use inventory_management_sys.Common.OrderStatus.{
  OrderStatus, can_transition, is_in, is_terminal, customer_cancellable, paid_statuses,
}
use inventory_management_sys.Order.Saga.{
  SagaState, transition, move, on_inventory_reserved, on_payment_succeeded, cancel, to_line_item,
}
use inventory_management_sys.Order.Saga.Transition.{IsMoved, transition_lem}
use inventory_management_sys.Order.Saga.Trail.{IsValid, was_paid}
use inventory_management_sys.Order.Saga.Outcomes.{
  cancel-was_paid, on_payment_succeeded_lem, early_payment_lost,
}
use inventory_management_sys.Order.Tests.{placed}

abbrev start : SagaState
start = record { order = placed; outbox = [] }

placed-IsValid : IsValid placed
unfolding can_transition is_terminal was_paid paid_statuses
placed-IsValid = record {
  trail = (refl, (refl, refl));
  completed = refl;
  failure = λ h. refl;
  paid = λ h. refl;
  short = omega arith;
}

abbrev failed : SagaState
failed = record {
  order = move 60 OrderStatus.failed (some "out of stock: sold out") placed;
  outbox = [];
}

fail_ok :
    transition 60 OrderStatus.failed (some "out of stock: sold out") false start ≡ ok (true, failed)
unfolding transition can_transition
fail_ok = refl

transition_lem_example :
    ((can_transition placed.status OrderStatus.failed ≡ true)
      × ((t : SagaState) × (transition 60 OrderStatus.failed (some "sold out") false start
            ≡ ok (true, t))
          × IsMoved 60 OrderStatus.failed (some "sold out") placed t.order
          × (t.outbox ≡ [])))
    ⊎ (can_transition placed.status OrderStatus.failed ≡ false)
      × (((false ≡ false) ⊎ (placed.status ≡ OrderStatus.failed))
            × (transition 60 OrderStatus.failed (some "sold out") false start ≡ ok (false, start))
          ⊎ (false ≡ true)
            × (placed.status ≢ OrderStatus.failed)
            × (transition 60 OrderStatus.failed (some "sold out") false start
                ≡ err Error.invalid_state_transition))
transition_lem_example = transition_lem 60 OrderStatus.failed (some "sold out") false start

ship_raises : transition 60 OrderStatus.shipped none true start ≡ err Error.invalid_state_transition
unfolding transition can_transition
ship_raises = refl

may_cancel : is_in placed.status customer_cancellable ≡ true
unfolding customer_cancellable
may_cancel = refl

cancel-was_paid_example :
    (t : SagaState) × (cancel 60 "changed my mind" "customer" start ≡ ok (true, t))
    × (t.order.status ≡ OrderStatus.cancelled)
    × (t.outbox
        ≡ enqueue_event Topic.order_cancelled 100
            (Payload.cancelled (record {
              order_id = 100;
              user_id = 7;
              reason = "changed my mind";
              was_paid = was_paid placed.history;
              items = map to_line_item placed.items;
            }))
            100
            [])
cancel-was_paid_example =
    cancel-was_paid 60 "changed my mind" "customer" start placed-IsValid may_cancel

abbrev reserved : SagaState
reserved = record { order = record placed { status = OrderStatus.inventory_reserved }; outbox = [] }

on_payment_succeeded_lem_example :
    (reserved.order.status ≢ OrderStatus.inventory_reserved)
      × (on_payment_succeeded 70 reserved ≡ ok (false, reserved))
    ⊎ (OrderStatus.inventory_reserved ≡ OrderStatus.inventory_reserved)
      × ((t : SagaState) × (on_payment_succeeded 70 reserved ≡ ok (true, t))
          × (t.order ≡ record reserved.order {
            status = OrderStatus.confirmed;
            history =
                record {
                  from_status = some OrderStatus.paid;
                  to_status = OrderStatus.confirmed;
                  reason = some "order confirmed";
                }
                ∷ record {
                  from_status = some OrderStatus.inventory_reserved;
                  to_status = OrderStatus.paid;
                  reason = some "payment captured";
                }
                ∷ placed.history;
          })
          × (t.outbox
              ≡ enqueue_event Topic.order_confirmed 100
                  (Payload.confirmed (record {
                    order_id = 100;
                    user_id = 7;
                    total_amount = placed.total_amount;
                    currency = placed.currency;
                    items = map to_line_item placed.items;
                    confirmed_at = 70;
                  }))
                  100
                  [])
          × (on_payment_succeeded 80 t ≡ ok (false, t)))
on_payment_succeeded_lem_example = on_payment_succeeded_lem 70 80 reserved

early_payment_lost_example :
    (on_payment_succeeded 50 start ≡ ok (false, start))
    × ((t : SagaState) × (on_inventory_reserved 60 start ≡ ok (true, t))
        × (t.order.status ≡ OrderStatus.inventory_reserved)
        × (t.outbox ≡ start.outbox))
early_payment_lost_example = early_payment_lost 50 60 start refl
