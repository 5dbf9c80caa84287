-- ===== src/Inventory/Tests.antt =====
-- The inventory service on concrete databases: a shelf of ten, an order of three, and what the
-- operations of services/inventory/app/services.py make of them.
mod Reserve
mod Settle
mod Sweep
mod Admin
use inventory_management_sys.Prelude.{
  ℕ, ◌≡◌, ◌≤◌, ◌<◌, ◌+◌, refl, List, [], ◌∷◌, none, some, String, ℤ, pos, Uuid, Bool, false, lookup,
  insert, arith, ◌-ℤ◌,
}
use inventory_management_sys.Common.Errors.{Error, Result, ok, err, int_max, column}
use inventory_management_sys.Common.Events.{
  Topic, Payload, PaymentMethod, InsufficientItem, LineItem, OrderCreated, PaymentSucceeded,
}
use inventory_management_sys.Common.Outbox.{enqueue_event}
use inventory_management_sys.Inventory.Models.{
  Reservation, ReservationStatus, StockItem, Inventory, Settings,
}
use inventory_management_sys.Inventory.Quantities.{available_of, reserved_of, qty_of, counted}
use inventory_management_sys.Inventory.Invariant.{IsValid, HasRoom}
use inventory_management_sys.Inventory.Records.{lock}
use inventory_management_sys.Inventory.Settle.{
  settle_row, settle_item, settle_items, settle, commit_reservation, release_reservation, is_stale,
  insert_by_expiry, stale_reservations, expire_all, expire_stale_reservations,
}
use inventory_management_sys.Inventory.Settle.Results.{
  commit_reservation-held, release_reservation-held,
}
use inventory_management_sys.Inventory.Settle.Operations.{
  commit_reservation_twice, release_reservation_twice, release_reservation-committed,
}
use inventory_management_sys.Inventory.Settle.Expire.{
  expire_stale_reservations_lem, expire_stale_reservations-none_left,
}
use inventory_management_sys.Inventory.Settle.Expire.Rounds.{Sweeps}
use inventory_management_sys.Inventory.Reserve.{
  ReserveRequest, Outside, positive, quantity_in, aggregate, insert_by_id, sort_by_id, lock_rows,
  insufficient_items, reserve_item, reserve_items, new_reservation, reserve_checked, reserve_new,
  reserve,
}
use inventory_management_sys.Inventory.Reserve.Lines.{line_qty}
use inventory_management_sys.Inventory.Reserve.Held.{Held}
use inventory_management_sys.Inventory.Reserve.Results.{reserve_enough}
use inventory_management_sys.Inventory.Reserve.Refusals.{
  reserve_short, reserve_not_positive, reserve-Held, reserve_twice,
}
use inventory_management_sys.Inventory.Consumer.{Message, handle}
use inventory_management_sys.Inventory.Admin.{upsert_row, upsert_stock_item, adjust_stock}
use inventory_management_sys.Inventory.Admin.Keeps.{
  Rewrites, upsert_stock_item-Rewrites, adjust_stock-Rewrites,
}
use inventory_management_sys.Inventory.History.{
  empty, Reach, handles, upserts, here, next, Reach-IsValid,
}

abbrev settings : Settings
settings = record {
  reservation_ttl_minutes = 15;
  sweeper_batch_size = 100;
  default_low_stock_threshold = 10;
}

-- The SKUs here are in upper case already.
abbrev upper : String → String
upper sku = sku

abbrev card : PaymentMethod
card = record { method = "CARD"; token = "tok_visa"; last4 = some "4242"; label = none }

abbrev order_of : List (Uuid × ℤ) → ReserveRequest
order_of items = record {
  order_id = 100;
  user_id = 7;
  items = items;
  total_amount = pos 2997;
  currency = "INR";
  payment_method = card;
}

abbrev mugs : ℕ → LineItem
mugs n = record { product_id = 1; sku = "MUG-1"; name = "Mug"; unit_price = pos 999; quantity = n }

-- Two lines of one product.
abbrev created : OrderCreated
created = record {
  order_id = 100;
  user_id = 7;
  total_amount = pos 2997;
  currency = "INR";
  items = mugs 1 ∷ mugs 2 ∷ [];
  shipping_address = record {
    line1 = "1 Main Street";
    line2 = none;
    city = "Pune";
    state = "MH";
    postal_code = "411001";
    country = "IN";
    phone = none;
  };
  payment_method = card;
}

abbrev paid : PaymentSucceeded
paid = record {
  order_id = 100;
  user_id = 7;
  payment_id = 900;
  amount = pos 2997;
  currency = "INR";
  method = "CARD";
  provider_ref = "mock-1";
  paid_at = 1100;
}

abbrev request : ReserveRequest
request = order_of ((1, pos 1) ∷ (1, pos 2) ∷ [])

abbrev outside : Outside
outside = record { fresh_id = 500; now = 1000; raced = false }

abbrev after {ℓ} : {A : Type ℓ} → Result (A × Inventory) → Inventory
after (ok (_, s)) = s
after (err _) = empty

-- Ten units of product 1 on the shelf.
abbrev stocked : Inventory
stocked = after (upsert_stock_item upper settings 1 "MUG-1" (pos 10) none empty)

-- Three of them held for order 100.
abbrev held_db : Inventory
held_db = after (reserve settings outside request stocked)

abbrev held_row : Reservation
held_row = record {
  id = 500;
  order_id = 100;
  user_id = 7;
  status = ReservationStatus.held;
  expires_at = 1900;
  items = (1, 3) ∷ [];
}

abbrev committed_row : Reservation
committed_row = record held_row { status = ReservationStatus.committed }

abbrev committed_db : Inventory
committed_db = after (commit_reservation 100 held_db)

stocked-Reach : Reach upper settings stocked
unfolding upsert_stock_item upsert_row column lookup
stocked-Reach = next here (upserts 1 "MUG-1" (pos 10) none _ refl)

reserve_ok : reserve settings outside request stocked ≡ ok (some held_row, held_db)
unfolding upsert_stock_item upsert_row reserve reserve_new aggregate positive quantity_in lookup
    insert insert_by_id sort_by_id lock_rows insufficient_items reserve_checked new_reservation
    reserve_items reserve_item
reserve_ok = refl

handled_ok : handle settings outside (Message.order_created created) stocked ≡ ok held_db
unfolding upsert_stock_item upsert_row reserve reserve_new aggregate positive quantity_in lookup
    insert insert_by_id sort_by_id lock_rows insufficient_items reserve_checked new_reservation
    reserve_items reserve_item handle
handled_ok = refl

held_db-Reach : Reach upper settings held_db
held_db-Reach = next stocked-Reach (handles outside (Message.order_created created) handled_ok)

stocked-IsValid : IsValid stocked
stocked-IsValid = Reach-IsValid stocked-Reach

Reach-IsValid_example : IsValid held_db
Reach-IsValid_example = Reach-IsValid held_db-Reach

held_db-IsValid : IsValid held_db
held_db-IsValid = Reach-IsValid held_db-Reach

-- The order's row in `held_db`.
held_found : lookup 100 held_db.reservations ≡ some held_row
unfolding upsert_stock_item upsert_row reserve reserve_new aggregate positive quantity_in lookup
    insert insert_by_id sort_by_id lock_rows insufficient_items reserve_checked new_reservation
    reserve_items reserve_item
held_found = refl
