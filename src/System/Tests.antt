-- ===== src/System/Tests.antt =====
-- The saga of the order, inventory and payment services, run on one order: a mug is put on the shelf
-- and announced, user 7 orders two, they are reserved and paid for, and the order is confirmed.
mod Late
use inventory_management_sys.Prelude.{
  ℕ, suc, ◌+◌, ◌≡◌, refl, Bool, true, false, List, [], ◌∷◌, Option, none, some, String, pos, ◌+ℤ◌,
  ◌-ℤ◌, lookup, insert, map, ltb_ℤ, inl, inr, Datetime, ◌==◌, if◌then◌else◌,
}
use inventory_management_sys.Common.Errors.{Result, ok, err, column}
use inventory_management_sys.Common.Text.{clip}
use inventory_management_sys.Common.Events.{
  Address, PaymentMethod, LineItem, ProductUpserted, OrderCreated, InventoryReserved,
}
use inventory_management_sys.Common.Outbox.{enqueue_event}
use inventory_management_sys.Common.OrderStatus.{OrderStatus, can_transition, is_in, paid_statuses}
use inventory_management_sys.Order.Models.{Order, OrderDb}
use inventory_management_sys.Order.Saga.{
  transition, move, confirm, on_inventory_reserved, on_payment_succeeded, publish_confirmed,
}
use inventory_management_sys.Order.Checkout.{
  CreateOrderRequest, Race, times, find_all, all_active, all_in, one_currency, priced, add_lines,
  fit_checks, flush_order, store_order, new_order, order_item, line_item, create_order,
  get_by_idempotency_key,
}
use inventory_management_sys.Order.Consumer.{with_row, with_order, upsert_snapshot}
use inventory_management_sys.Order.Consumer as OrderConsumer
use inventory_management_sys.Order.History as OrderHistory
use inventory_management_sys.Order.Unpaid.{paid_in}
use inventory_management_sys.Inventory.Models.{Inventory, Settings, StockItem}
use inventory_management_sys.Inventory.Records as Records
use inventory_management_sys.Inventory.Reserve as Reserve
use inventory_management_sys.Inventory.Reserve.{
  positive, quantity_in, aggregate, insert_by_id, sort_by_id, lock_rows, insufficient_items,
  reserve_item, reserve_items, new_reservation, reserve_checked, reserve_new, reserve,
}
use inventory_management_sys.Inventory.Consumer.{reserve_request}
use inventory_management_sys.Inventory.Consumer as InventoryConsumer
use inventory_management_sys.Inventory.Admin.{upsert_row, upsert_stock_item}
use inventory_management_sys.Inventory.History as InventoryHistory
use inventory_management_sys.Payment.Models.{Payment, PaymentStatus, Payments}
use inventory_management_sys.Payment.Gateway.{Answer, charge, failure_code, retryable, message}
use inventory_management_sys.Payment.Service as PaymentService
use inventory_management_sys.Payment.Service.{
  put_payment, charge_captured, attempt_charge, new_payment, charge_for_order, charge_failed,
  retry_payment,
}
use inventory_management_sys.Payment.Consumer.{charge_request}
use inventory_management_sys.Payment.Consumer as PaymentConsumer
use inventory_management_sys.Payment.History as PaymentHistory
use inventory_management_sys.Payment.History.{payments-IsValid}
use inventory_management_sys.Payment.Invariant.{IsValid, times_captured}
use inventory_management_sys.System.{
  System, Sent, inventory_message, payment_message, order_message, Step, Reach, here, next,
  order_acts, inventory_acts, payment_acts,
}
use inventory_management_sys.System.Captured.{paid_order_captured}
use inventory_management_sys.System.Reserved.{captured_order_reserved}
use inventory_management_sys.Inventory.Announces.{times_reserved}
use inventory_management_sys.Prelude.{◌≤◌, arith}

abbrev settings : Settings
settings = record {
  reservation_ttl_minutes = 15;
  sweeper_batch_size = 100;
  default_low_stock_threshold = 1;
}

-- The SKUs here are in upper case already.
abbrev upper : String → String
upper sku = sku

abbrev mug : ProductUpserted
mug = record {
  product_id = 1;
  sku = "MUG-1";
  name = "Mug";
  price = pos 999;
  currency = "INR";
  is_active = true;
}

abbrev body : CreateOrderRequest
body = record {
  items = (1, 2) ∷ [];
  shipping_address = record {
    line1 = "1 Main Street";
    line2 = none;
    city = "Pune";
    state = "MH";
    postal_code = "411001";
    country = "IN";
    phone = none;
  };
  payment_method = record { method = "CARD"; token = "tok_visa"; last4 = none; label = none };
}

abbrev created : OrderCreated
created = record {
  order_id = 100;
  user_id = 7;
  total_amount = pos 1998;
  currency = "INR";
  items =
      record { product_id = 1; sku = "MUG-1"; name = "Mug"; unit_price = pos 999; quantity = 2 }
      ∷ [];
  shipping_address = body.shipping_address;
  payment_method = body.payment_method;
}

abbrev reserved : InventoryReserved
reserved = record {
  order_id = 100;
  user_id = 7;
  reservation_id = 500;
  expires_at = 1900;
  items = record { product_id = 1; quantity = 2 } ∷ [];
  total_amount = pos 1998;
  currency = "INR";
  payment_method = body.payment_method;
}

abbrev stock_outside : Reserve.Outside
stock_outside = record { fresh_id = 500; now = 1000; raced = false }

abbrev pay_outside : PaymentService.Outside
pay_outside = record {
  fresh_id = 900;
  now = 1100;
  hex = "0123";
  injected = λ _. false;
  raced = false;
}

abbrev second : {A S : Type 0} → S → Result (A × S) → S
second s (ok (_, t)) = t
second s (err _) = s

abbrev only : {S : Type 0} → S → Result S → S
only s (ok t) = t
only s (err _) = s

abbrev stocked : Inventory
stocked =
    second InventoryHistory.empty
      (upsert_stock_item upper settings 1 "MUG-1" (pos 10) none InventoryHistory.empty)

abbrev for_sale : OrderDb
for_sale =
    only OrderHistory.empty
      (OrderConsumer.handle 10 (OrderConsumer.Message.product_upserted mug) OrderHistory.empty)

abbrev placed : OrderDb
placed = second for_sale (create_order Race.calm 100 7 body "key-1" for_sale)

abbrev held_stock : Inventory
held_stock = only stocked (
    InventoryConsumer.handle settings stock_outside
      (InventoryConsumer.Message.order_created created) stocked)

abbrev ready : OrderDb
ready = only placed (OrderConsumer.handle 20 (OrderConsumer.Message.inventory_reserved 100) placed)

abbrev charged : Payments
charged = only PaymentHistory.empty (
    PaymentConsumer.handle pay_outside (PaymentConsumer.Message.inventory_reserved reserved)
      PaymentHistory.empty)

abbrev confirmed : OrderDb
confirmed = only ready (OrderConsumer.handle 30 (OrderConsumer.Message.payment_succeeded 100) ready)

abbrev system : OrderDb → Inventory → Payments → System
system o i p = record { orders = o; inventory = i; payments = p }

abbrev shelf : StockItem
shelf = record {
  product_id = 1;
  sku = "MUG-1";
  available_qty = 10;
  reserved_qty = 0;
  low_stock_threshold = 1;
}

abbrev order : Order
order = record {
  id = 100;
  user_id = 7;
  status = OrderStatus.pending;
  total_amount = pos 1998;
  currency = "INR";
  shipping_address = body.shipping_address;
  payment_method = body.payment_method;
  idempotency_key = some "key-1";
  failure_reason = none;
  completed_at = none;
  items =
      record { product_id = 1; sku = "MUG-1"; name = "Mug"; unit_price = pos 999; quantity = 2 }
      ∷ [];
  history =
      record { from_status = none; to_status = OrderStatus.pending; reason = some "order placed" }
      ∷ [];
}

stocked_ok :
    upsert_stock_item upper settings 1 "MUG-1" (pos 10) none InventoryHistory.empty
    ≡ ok (shelf, stocked)
unfolding upsert_stock_item upsert_row column lookup
stocked_ok = refl

for_sale_ok :
    OrderConsumer.handle 10 (OrderConsumer.Message.product_upserted mug) OrderHistory.empty
    ≡ ok for_sale
unfolding OrderConsumer.handle upsert_snapshot insert
for_sale_ok = refl

placed_ok : create_order Race.calm 100 7 body "key-1" for_sale ≡ ok ((order, true), placed)
unfolding OrderConsumer.handle upsert_snapshot insert create_order priced find_all lookup all_active
    one_currency all_in flush_order fit_checks add_lines times ◌+ℤ◌ store_order new_order
    get_by_idempotency_key order_item line_item
placed_ok = refl

held_ok :
    InventoryConsumer.handle settings stock_outside
      (InventoryConsumer.Message.order_created created)
      stocked
    ≡ ok held_stock
unfolding upsert_stock_item upsert_row column lookup insert InventoryConsumer.handle reserve_request
    reserve reserve_new aggregate positive quantity_in insert_by_id sort_by_id lock_rows
    insufficient_items reserve_checked new_reservation reserve_items reserve_item
held_ok = refl

ready_ok : OrderConsumer.handle 20 (OrderConsumer.Message.inventory_reserved 100) placed ≡ ok ready
unfolding OrderConsumer.handle upsert_snapshot insert create_order priced find_all lookup all_active
    one_currency all_in flush_order fit_checks add_lines times ◌+ℤ◌ store_order new_order
    get_by_idempotency_key order_item line_item with_order with_row on_inventory_reserved transition
    can_transition move
ready_ok = refl

charged_ok :
    PaymentConsumer.handle pay_outside
      (PaymentConsumer.Message.inventory_reserved reserved)
      PaymentHistory.empty
    ≡ ok charged
unfolding PaymentConsumer.handle charge_request charge_for_order new_payment attempt_charge charge
    charge_captured put_payment PaymentService.publish lookup insert
charged_ok = refl

confirmed_ok :
    OrderConsumer.handle 30 (OrderConsumer.Message.payment_succeeded 100) ready ≡ ok confirmed
unfolding OrderConsumer.handle upsert_snapshot insert create_order priced find_all lookup all_active
    one_currency all_in flush_order fit_checks add_lines times ◌+ℤ◌ store_order new_order
    get_by_idempotency_key order_item line_item with_order with_row on_inventory_reserved
    on_payment_succeeded confirm publish_confirmed transition can_transition move
confirmed_ok = refl

placed_order-Sent :
    Sent inventory_message (InventoryConsumer.Message.order_created created) placed.outbox
unfolding OrderConsumer.handle upsert_snapshot insert create_order priced find_all lookup all_active
    one_currency all_in flush_order fit_checks add_lines times ◌+ℤ◌ store_order new_order
    get_by_idempotency_key order_item line_item enqueue_event
placed_order-Sent = inl refl

held_stock-Sent :
    Sent payment_message (PaymentConsumer.Message.inventory_reserved reserved) held_stock.outbox
unfolding upsert_stock_item upsert_row column lookup insert InventoryConsumer.handle reserve_request
    reserve reserve_new aggregate positive quantity_in insert_by_id sort_by_id lock_rows
    insufficient_items reserve_checked new_reservation reserve_items reserve_item enqueue_event
held_stock-Sent = inr (inr (inl refl))

held_stock_heard :
    Sent order_message (OrderConsumer.Message.inventory_reserved 100) held_stock.outbox
unfolding upsert_stock_item upsert_row column lookup insert InventoryConsumer.handle reserve_request
    reserve reserve_new aggregate positive quantity_in insert_by_id sort_by_id lock_rows
    insufficient_items reserve_checked new_reservation reserve_items reserve_item enqueue_event
held_stock_heard = inr (inr (inl refl))

charged_heard : Sent order_message (OrderConsumer.Message.payment_succeeded 100) charged.outbox
unfolding PaymentConsumer.handle charge_request charge_for_order new_payment attempt_charge charge
    charge_captured put_payment PaymentService.publish lookup insert enqueue_event
charged_heard = inl refl

confirmed-Reach : Reach upper settings (system confirmed held_stock charged)
confirmed-Reach =
    next {s = system ready held_stock charged}
      (next {s = system ready held_stock PaymentHistory.empty}
        (next {s = system placed held_stock PaymentHistory.empty}
          (next {s = system placed stocked PaymentHistory.empty}
            (next {s = system for_sale stocked PaymentHistory.empty}
              (next {s = system OrderHistory.empty stocked PaymentHistory.empty}
                (next here (
                  inventory_acts (InventoryHistory.upserts 1 "MUG-1" (pos 10) none shelf stocked_ok)
                    tt refl refl))
                (order_acts
                  (OrderHistory.handles 10 (OrderConsumer.Message.product_upserted mug) for_sale_ok)
                  tt refl refl))
              (order_acts
                (OrderHistory.creates Race.calm 100 7 body "key-1" (order, true) placed_ok) tt refl
                refl))
            (inventory_acts
              (InventoryHistory.handles stock_outside
                (InventoryConsumer.Message.order_created created) held_ok)
              placed_order-Sent refl refl))
          (order_acts
            (OrderHistory.handles 20 (OrderConsumer.Message.inventory_reserved 100) ready_ok)
            held_stock_heard refl refl))
        (payment_acts
          (PaymentHistory.handles pay_outside (PaymentConsumer.Message.inventory_reserved reserved)
            charged_ok)
          held_stock-Sent refl refl))
      (order_acts
        (OrderHistory.handles 30 (OrderConsumer.Message.payment_succeeded 100) confirmed_ok)
        charged_heard refl refl)

confirmed_paid : paid_in 100 confirmed ≡ true
unfolding OrderConsumer.handle upsert_snapshot insert create_order priced find_all lookup all_active
    one_currency all_in flush_order fit_checks add_lines times ◌+ℤ◌ store_order new_order
    get_by_idempotency_key order_item line_item with_order with_row on_inventory_reserved
    on_payment_succeeded confirm publish_confirmed transition can_transition move paid_in
    paid_statuses
confirmed_paid = refl

paid_order_captured_example : times_captured 100 charged.captured ≡ 1
paid_order_captured_example = paid_order_captured confirmed-Reach 100 confirmed_paid

charged_once : 1 ≤ times_captured 100 charged.captured
unfolding PaymentConsumer.handle charge_request charge_for_order new_payment attempt_charge charge
    charge_captured put_payment PaymentService.publish lookup insert enqueue_event times_captured
charged_once = omega arith

captured_order_reserved_example : 1 ≤ times_reserved 100 held_stock.outbox
captured_order_reserved_example = captured_order_reserved confirmed-Reach 100 charged_once
