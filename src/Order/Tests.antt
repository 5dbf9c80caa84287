-- ===== src/Order/Tests.antt =====
-- The order service on a concrete database: one product, a checkout of two mugs, and the events of
-- the saga that follow it.
mod Saga
mod History
use inventory_management_sys.Prelude.{
  suc, ◌≡◌, ◌≢◌, ◌⊎◌, refl, [], ◌∷◌, length, none, some, pos, ◌+ℤ◌, false, true, lookup, insert,
  map, arith, ◌==◌, if◌then◌else◌,
}
use inventory_management_sys.Common.Errors.{Error, Result, ok, err}
use inventory_management_sys.Common.Events.{Topic, Payload, PaymentMethod, Address}
use inventory_management_sys.Common.Outbox.{enqueue_event}
use inventory_management_sys.Common.OrderStatus.{
  OrderStatus, can_transition, is_in, is_terminal, customer_cancellable, paid_statuses,
}
use inventory_management_sys.Order.Models.{Order, OrderDb, ProductSnapshot}
use inventory_management_sys.Order.Saga.{
  SagaState, transition, move, on_inventory_reserved, on_payment_succeeded, cancel, to_line_item,
}
use inventory_management_sys.Order.Saga.Transition.{transition_lem}
use inventory_management_sys.Order.Saga.Trail.{IsValid, was_paid}
use inventory_management_sys.Order.Saga.Outcomes.{
  cancel-was_paid, on_payment_succeeded_lem, early_payment_lost,
}
use inventory_management_sys.Order.Consumer.{Message, with_row, with_order, handle}
use inventory_management_sys.Order.Service.{cancel_order}
use inventory_management_sys.Order.Checkout.{
  CreateOrderRequest, Race, times, find_all, all_active, all_in, one_currency, priced, add_lines,
  fit_checks, flush_order, create_order,
}
use inventory_management_sys.Order.Checkout.Total.{total_of, PricedAs, create_order-total}
use inventory_management_sys.Order.Checkout.Replay.{create_order_twice}
use inventory_management_sys.Order.Kept.{
  AllValid, handle-AllValid, cancel_order-AllValid, create_order-AllValid,
}

abbrev address : Address
address = record {
  line1 = "1 Main Street";
  line2 = none;
  city = "Pune";
  state = "MH";
  postal_code = "411001";
  country = "IN";
  phone = none;
}

abbrev card : PaymentMethod
card = record { method = "CARD"; token = "tok_visa"; last4 = some "4242"; label = none }

abbrev mug : ProductSnapshot
mug = record {
  product_id = 1;
  sku = "MUG-1";
  name = "Mug";
  price = pos 999;
  currency = "INR";
  is_active = true;
}

abbrev db : OrderDb
db = record { orders = []; products = (1, mug) ∷ []; outbox = [] }

abbrev body : CreateOrderRequest
body = record { items = (1, 2) ∷ []; shipping_address = address; payment_method = card }

-- The order that the checkout makes.
abbrev placed : Order
placed = record {
  id = 100;
  user_id = 7;
  status = OrderStatus.pending;
  total_amount = pos 1998;
  currency = "INR";
  shipping_address = address;
  payment_method = card;
  idempotency_key = some "key-1";
  failure_reason = none;
  completed_at = none;
  items =
      record { product_id = 1; sku = "MUG-1"; name = "Mug"; unit_price = pos 999; quantity = 2 }
      ∷ [];
  history =
      record { from_status = none; to_status = OrderStatus.pending; reason = some "order placed" }
      ∷ [];
}

abbrev db_of : {A : Type 0} → Result (A × OrderDb) → OrderDb
db_of (ok (_, d)) = d
db_of (err _) = db

abbrev placed_db : OrderDb
placed_db = db_of (create_order Race.calm 100 7 body "key-1" db)

create_ok : create_order Race.calm 100 7 body "key-1" db ≡ ok ((placed, true), placed_db)
unfolding create_order priced find_all lookup all_active one_currency all_in flush_order fit_checks
    add_lines times ◌+ℤ◌
create_ok = refl

create_order-total_example :
    (lookup 100 placed_db.orders ≡ some placed)
    × (placed.user_id ≡ 7)
    × PricedAs db.products body.items placed.items
    × (placed.total_amount ≡ total_of placed.items)
create_order-total_example =
    create_order-total Race.calm 100 7 body "key-1" db placed placed_db create_ok

not_there : lookup 100 db.orders ≡ none
unfolding lookup
not_there = refl

-- User 8 uses the key of user 7.
create_order_twice_example :
    create_order Race.calm 101 8 body "key-1" placed_db
    ≡ (if 7 == 8 then ok ((placed, false), placed_db) else err Error.conflict)
create_order_twice_example =
    create_order_twice Race.calm Race.calm 100 101 7 8 body body "key-1" db placed placed_db
      not_there create_ok

abbrev db_or : Result OrderDb → OrderDb
db_or (ok d) = d
db_or (err _) = db

abbrev reserved_db : OrderDb
reserved_db = db_or (handle 50 (Message.inventory_reserved 100) placed_db)

reserve_ok : handle 50 (Message.inventory_reserved 100) placed_db ≡ ok reserved_db
unfolding create_order priced find_all lookup all_active one_currency all_in flush_order fit_checks
    add_lines times ◌+ℤ◌ insert handle with_order with_row on_inventory_reserved transition
    can_transition
reserve_ok = refl
