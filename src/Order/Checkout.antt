-- ===== src/Order/Checkout.antt =====
-- `create_order` of services/order/app/services.py.
pub mod Total
pub mod Replay
use inventory_management_sys.Prelude.{
  ℕ, suc, ◌*◌, ◌+◌, Bool, true, false, not, ◌&&◌, ltb, ltb_ℤ, map, List, [], ◌∷◌, Option, none,
  some, String, ℤ, pos, negsuc, sub_ℕ, ◌+ℤ◌, Dict, lookup, insert, Uuid, Decimal, ◌==◌,
  if◌then◌else◌,
}
use text.Mathlib.Text.{◌==◌ as str_eq}
use inventory_management_sys.Common.Errors.{Error, Result, ok, err, ◌>>=◌}
use inventory_management_sys.Common.Events.{Topic, Payload, Address, PaymentMethod, LineItem}
use inventory_management_sys.Common.Outbox.{enqueue_event}
use inventory_management_sys.Common.OrderStatus.{OrderStatus}
use inventory_management_sys.Order.Models.{Order, OrderItem, OrderDb, ProductSnapshot}

-- The body of POST /orders: product and quantity of each line, never a price.
pub record CreateOrderRequest : Type 0 where
  pub items : List (Uuid × ℕ)
  pub shipping_address : Address
  pub payment_method : PaymentMethod

-- What the flush of the new row meets: nothing, or a concurrent request with the same key, whose
-- order is found after the rollback or is not committed yet.
pub data Race : Type 0 where
  calm : Race
  lost_to : Order → Race
  contended : Race

-- `get_by_idempotency_key`
unfoldable pub get_by_idempotency_key : String → Dict Order → Option Order
get_by_idempotency_key key [] = none
get_by_idempotency_key key ((_, order) ∷ orders) =
    let rest = get_by_idempotency_key key orders in
    elim order.idempotency_key [ none ↦ rest | some k ↦ if str_eq k key then some order else rest ]

-- Decimal * int
unfoldable pub times : Decimal → ℕ → Decimal
times (pos n) q = pos (n * q)
times (negsuc n) q = sub_ℕ 0 (suc n * q)

-- The snapshots of the lines, in order; ValidationError if one is missing.
unfoldable pub find_all :
    Dict ProductSnapshot → List (Uuid × ℕ) → Result (List (ProductSnapshot × ℕ))
find_all products [] = ok []
find_all products ((product_id, quantity) ∷ items) = elim (lookup product_id products) [
  | none ↦ err Error.validation
  | some snapshot ↦ do rest ← find_all products items; ok ((snapshot, quantity) ∷ rest)
]

unfoldable pub all_active : List (ProductSnapshot × ℕ) → Bool
all_active [] = true
all_active ((snapshot, _) ∷ lines) = snapshot.is_active && all_active lines

-- `len(currencies) > 1`, seen from the first line's currency
unfoldable pub all_in : String → List (ProductSnapshot × ℕ) → Bool
all_in currency [] = true
all_in currency ((snapshot, _) ∷ lines) = str_eq snapshot.currency currency && all_in currency lines

-- `currencies.pop()` of the one currency
unfoldable pub one_currency : List (ProductSnapshot × ℕ) → Result String
unfolding all_in
one_currency [] = err Error.key_error
one_currency ((snapshot, quantity) ∷ lines) =
    if all_in snapshot.currency lines then ok snapshot.currency else err Error.validation

abbrev in_currency : {A : Type 0} → A → Result String → Result (A × String)
in_currency lines (ok currency) = ok (lines, currency)
in_currency lines (err e) = err e

-- The lines that checkout prices: every product known, for sale, and in one currency.
unfoldable pub priced :
    Dict ProductSnapshot → List (Uuid × ℕ) → Result (List (ProductSnapshot × ℕ) × String)
priced products items = do
  lines ← find_all products items
  in_currency lines (if all_active lines then one_currency lines else err Error.validation)

-- The loop over the lines: the item rows, the event's line items and the total.
unfoldable pub order_item : ProductSnapshot × ℕ → OrderItem
order_item (snapshot, quantity) = record {
  product_id = snapshot.product_id;
  sku = snapshot.sku;
  name = snapshot.name;
  unit_price = snapshot.price;
  quantity = quantity;
}

unfoldable pub line_item : ProductSnapshot × ℕ → LineItem
line_item (snapshot, quantity) = record {
  product_id = snapshot.product_id;
  sku = snapshot.sku;
  name = snapshot.name;
  unit_price = snapshot.price;
  quantity = quantity;
}

-- `total += snapshot.price * item.quantity`, from Decimal("0.00")
unfoldable pub add_lines : Decimal → List (ProductSnapshot × ℕ) → Decimal
add_lines total [] = total
add_lines total ((snapshot, quantity) ∷ lines) =
    add_lines (total +ℤ times snapshot.price quantity) lines

-- CHECK (unit_price >= 0) and CHECK (quantity > 0) of the item rows
unfoldable pub fit_checks : List (ProductSnapshot × ℕ) → Bool
fit_checks [] = true
fit_checks ((snapshot, quantity) ∷ lines) =
    not (ltb_ℤ snapshot.price (pos 0)) && ltb 0 quantity && fit_checks lines

-- The row that is flushed, with its items, its total and its first history entry.
unfoldable pub new_order :
    Uuid → Uuid → CreateOrderRequest → String → List (ProductSnapshot × ℕ) → String → Order
unfolding order_item add_lines
new_order fresh_id user_id body key lines currency = record {
  id = fresh_id;
  user_id = user_id;
  status = OrderStatus.pending;
  total_amount = add_lines (pos 0) lines;
  currency = currency;
  shipping_address = body.shipping_address;
  payment_method = body.payment_method;
  idempotency_key = some key;
  failure_reason = none;
  completed_at = none;
  items = map order_item lines;
  history =
      record { from_status = none; to_status = OrderStatus.pending; reason = some "order placed" }
      ∷ [];
}

-- The order and its `order.created` event, in one transaction.
unfoldable pub store_order : Order → List (ProductSnapshot × ℕ) → OrderDb → OrderDb
unfolding line_item
store_order order lines db = record db {
  orders = insert order.id order db.orders;
  outbox =
      enqueue_event Topic.order_created order.id
        (Payload.created (record {
          order_id = order.id;
          user_id = order.user_id;
          total_amount = order.total_amount;
          currency = order.currency;
          items = map line_item lines;
          shipping_address = order.shipping_address;
          payment_method = order.payment_method;
        }))
        order.id db.outbox;
}

-- The flush of the new row, which decides a race for the key.
unfoldable pub flush_order :
    Race → Order → List (ProductSnapshot × ℕ) → OrderDb → Result ((Order × Bool) × OrderDb)
unfolding store_order fit_checks
flush_order (Race.lost_to other) order lines db = ok ((other, false), db)
flush_order Race.contended order lines db = err Error.conflict
flush_order Race.calm order lines db =
    if fit_checks lines
    then ok ((order, true), store_order order lines db)
    else err Error.integrity_error

-- `create_order`: the order, and whether it was created.
unfoldable pub create_order :
    Race → Uuid → Uuid → CreateOrderRequest → String → OrderDb → Result ((Order × Bool) × OrderDb)
unfolding get_by_idempotency_key new_order flush_order
create_order race fresh_id user_id body key db = elim (get_by_idempotency_key key db.orders) [
  | some existing ↦
      if existing.user_id == user_id then ok ((existing, false), db) else err Error.conflict
  | none ↦ do
    found ← priced db.products body.items
    flush_order race (new_order fresh_id user_id body key found.0 found.1) found.0 db
]
