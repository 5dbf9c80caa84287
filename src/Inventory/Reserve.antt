-- ===== src/Inventory/Reserve.antt =====
-- `InventoryService.reserve` of services/inventory/app/services.py.
pub mod Lines
pub mod Stock
pub mod Loop
pub mod Held
pub mod Results
pub mod Refusals
use inventory_management_sys.Prelude.{
  ℕ, suc, ◌+◌, ◌*◌, List, [], ◌∷◌, Option, none, some, Bool, String, ℤ, pos, ◌+ℤ◌, ◌-ℤ◌, Dict,
  lookup, insert, contains, Uuid, Datetime, Decimal, ltb, leb, if◌then◌else◌,
}
use inventory_management_sys.Common.Errors.{Error, Result, ok, err, ◌>>=◌, column}
use inventory_management_sys.Common.Events.{LedgerReason, InsufficientItem, PaymentMethod}
use inventory_management_sys.Inventory.Models.{
  ReservationStatus, StockItem, Reservation, Inventory, Settings,
}
use inventory_management_sys.Inventory.Records.{
  record_ledger, publish_stock_changed, maybe_publish_low_stock, publish_reserved,
  publish_reservation_failed, put_row, put_reservation, lock,
}

-- The keyword arguments of `reserve`.
pub record ReserveRequest : Type 0 where
  pub order_id : Uuid
  pub user_id : Uuid
  pub items : List (Uuid × ℤ)
  pub total_amount : Decimal
  pub currency : String
  pub payment_method : PaymentMethod

-- What the call takes from outside: the new row's uuid4, the clock, and whether a concurrent
-- transaction has inserted a reservation for the order since this one looked.
pub record Outside : Type 0 where
  pub fresh_id : Uuid
  pub now : Datetime
  pub raced : Bool

-- `if quantity <= 0: raise ValidationError`
unfoldable pub positive : ℤ → Result ℕ
positive (pos (suc n)) = ok (suc n)
positive _ = err Error.validation

-- `d.get(key, 0)`
unfoldable pub quantity_in : Uuid → Dict ℕ → ℕ
quantity_in product_id d = elim (lookup product_id d) [ none ↦ 0 | some q ↦ q ]

-- The loop that sums the lines of one product.
unfoldable pub aggregate : List (Uuid × ℤ) → Dict ℕ → Result (Dict ℕ)
aggregate [] wanted = ok wanted
aggregate ((product_id, quantity) ∷ items) wanted = do
  q ← positive quantity
  aggregate items (insert product_id (quantity_in product_id wanted + q) wanted)

-- `sorted(wanted.items(), key=lambda kv: str(kv[0]))`: the text of a UUID sorts as its value does.
unfoldable pub insert_by_id : Uuid × ℕ → List (Uuid × ℕ) → List (Uuid × ℕ)
insert_by_id item [] = item ∷ []
insert_by_id item (x ∷ xs) = if leb item.0 x.0 then item ∷ x ∷ xs else x ∷ insert_by_id item xs

unfoldable pub sort_by_id : List (Uuid × ℕ) → List (Uuid × ℕ)
sort_by_id [] = []
sort_by_id (item ∷ items) = insert_by_id item (sort_by_id items)

-- `select … order_by(product_id).with_for_update()`: the rows that exist are locked in that order.
unfoldable pub lock_rows : List (Uuid × ℕ) → Inventory → Inventory
unfolding lock
lock_rows [] s = s
lock_rows ((product_id, _) ∷ items) s =
    lock_rows items (if contains product_id s.stock then lock product_id s else s)

unfoldable pub insufficient_items : Dict StockItem → List (Uuid × ℕ) → List InsufficientItem
insufficient_items stock [] = []
insufficient_items stock ((product_id, quantity) ∷ wanted) =
    let rest = insufficient_items stock wanted in
    elim (lookup product_id stock) [
      | none ↦ record { product_id = product_id; requested = quantity; available = 0 } ∷ rest
      | some row ↦
          if ltb row.available_qty quantity
          then record {
            product_id = product_id;
            requested = quantity;
            available = row.available_qty;
          }
            ∷ rest
          else rest
    ]

-- One round of the loop that moves the units; `stock_by_id[product_id]` raises KeyError if missing.
unfoldable pub reserve_item : Uuid → Uuid → ℕ → Inventory → Result Inventory
unfolding column ◌+ℤ◌ ◌-ℤ◌ record_ledger publish_stock_changed maybe_publish_low_stock put_row
reserve_item order_id product_id q s = elim (lookup product_id s.stock) [
  | none ↦ err Error.key_error
  | some old ↦ do
    available ← column (pos old.available_qty -ℤ pos q)
    reserved ← column (pos old.reserved_qty +ℤ pos q)
    let row : StockItem = record old { available_qty = available; reserved_qty = reserved }
    ok (
        maybe_publish_low_stock row (
          publish_stock_changed row LedgerReason.reserve (some order_id) (
            record_ledger product_id (pos 0 -ℤ pos q) LedgerReason.reserve (some order_id)
              row.available_qty (put_row product_id row s))))
]

unfoldable pub reserve_items : Uuid → List (Uuid × ℕ) → Inventory → Result Inventory
reserve_items order_id [] s = ok s
reserve_items order_id ((product_id, q) ∷ items) s = do
  t ← reserve_item order_id product_id q s
  reserve_items order_id items t

-- The new row, with the item rows that the loop adds.
unfoldable pub new_reservation : Settings → Outside → ReserveRequest → Dict ℕ → Reservation
new_reservation settings o request wanted = record {
  id = o.fresh_id;
  order_id = request.order_id;
  user_id = request.user_id;
  status = ReservationStatus.held;
  expires_at = o.now + settings.reservation_ttl_minutes * 60;
  items = sort_by_id wanted;
}

-- From the test `if insufficient` on.
unfoldable pub reserve_checked :
    Settings
    → Outside
    → ReserveRequest
    → Dict ℕ
    → List InsufficientItem
    → Inventory
    → Result (Option Reservation × Inventory)
unfolding publish_reserved publish_reservation_failed put_reservation
reserve_checked settings o request wanted (short ∷ shorts) s = ok (
  none,
  publish_reservation_failed request.order_id request.user_id "insufficient stock" (short ∷ shorts)
      s,
)
reserve_checked settings o request wanted [] s = if o.raced then err Error.conflict else do
  let reservation = new_reservation settings o request wanted
  t ←
      reserve_items request.order_id reservation.items
        (put_reservation request.order_id reservation s)
  ok (
    some reservation,
    publish_reserved reservation wanted request.total_amount request.currency request.payment_method
        t,
  )

-- From the loop over `items` on, once the order is known to be new.
unfoldable pub reserve_new :
    Settings → Outside → ReserveRequest → Inventory → Result (Option Reservation × Inventory)
reserve_new settings o request s = do
  wanted ← aggregate request.items []
  let locked = lock_rows (sort_by_id wanted) s
  reserve_checked settings o request wanted (insufficient_items locked.stock wanted) locked

-- `reserve`
unfoldable pub reserve :
    Settings → Outside → ReserveRequest → Inventory → Result (Option Reservation × Inventory)
reserve settings o request s = elim request.items [
  | [] ↦ err Error.validation
  | _ ∷ _ ↦ elim (lookup request.order_id s.reservations) [
    | some _ ↦ ok (none, s)
    | none ↦ reserve_new settings o request s
  ]
]
