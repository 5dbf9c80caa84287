-- ===== src/Inventory/Settle.antt =====
-- The operations that end a reservation, in services/inventory/app/services.py:
-- `commit_reservation`, `release_reservation`, `_restock_committed` and
-- `expire_stale_reservations`. Their four loops over `reservation.items` differ in what they do to
-- a stock row, in the ledger's delta and in the reason: `settle_row`, `settle_delta`.
pub mod Effect
pub mod Fits
pub mod Keeps
pub mod Results
pub mod Operations
pub mod Expire
use inventory_management_sys.Prelude.{
  ℕ, List, [], ◌∷◌, Option, none, some, Bool, true, false, ◌&&◌, not, ℤ, pos, ◌+ℤ◌, ◌-ℤ◌, lookup,
  Uuid, Datetime, ltb, leb, if◌then◌else◌, take, length,
}
use inventory_management_sys.Common.Errors.{Result, ok, err, ◌>>=◌, column}
use inventory_management_sys.Common.Events.{LedgerReason}
use inventory_management_sys.Inventory.Models.{ReservationStatus, StockItem, Reservation, Inventory}
use inventory_management_sys.Inventory.Records.{
  record_ledger, publish_stock_changed, put_row, put_reservation, lock,
}

-- What a loop does to the columns of a locked row, as the next flush takes it.
unfoldable pub settle_row : LedgerReason → ℕ → StockItem → Result StockItem
unfolding column ◌+ℤ◌ ◌-ℤ◌
settle_row LedgerReason.commit q row = do
  reserved ← column (pos row.reserved_qty -ℤ pos q)
  ok (record row { reserved_qty = reserved })
settle_row LedgerReason.restock q row = do
  available ← column (pos row.available_qty +ℤ pos q)
  ok (record row { available_qty = available })
settle_row _ q row = do
  reserved ← column (pos row.reserved_qty -ℤ pos q)
  available ← column (pos row.available_qty +ℤ pos q)
  ok (record row { reserved_qty = reserved; available_qty = available })

unfoldable pub settle_delta : LedgerReason → ℕ → ℤ
settle_delta LedgerReason.commit q = pos 0
settle_delta _ q = pos q

-- One round of a loop; a product with no stock row is skipped.
unfoldable pub settle_item : LedgerReason → Uuid → Uuid → ℕ → Inventory → Result Inventory
unfolding settle_delta record_ledger publish_stock_changed put_row lock
settle_item reason order_id product_id q s = elim (lookup product_id s.stock) [
  | none ↦ ok s
  | some old ↦ do
    row ← settle_row reason q old
    ok (
        publish_stock_changed row reason (some order_id) (
          record_ledger product_id (settle_delta reason q) reason (some order_id) row.available_qty
            (put_row product_id row (lock product_id s))))
]

unfoldable pub settle_items : LedgerReason → Uuid → List (Uuid × ℕ) → Inventory → Result Inventory
settle_items reason order_id [] s = ok s
settle_items reason order_id ((product_id, q) ∷ items) s = do
  t ← settle_item reason order_id product_id q s
  settle_items reason order_id items t

-- A whole loop and the status that is written after it.
unfoldable pub settle :
    LedgerReason → ReservationStatus → Reservation → Inventory → Result (Reservation × Inventory)
unfolding put_reservation
settle reason status r s = do
  t ← settle_items reason r.order_id r.items s
  let done : Reservation = record r { status = status }
  ok (done, put_reservation r.order_id done t)

abbrev pub some_of : {A : Type 0} → Result (A × Inventory) → Result (Option A × Inventory)
some_of (ok (a, s)) = ok (some a, s)
some_of (err e) = err e

abbrev pub commit_from :
    ReservationStatus → Reservation → Inventory → Result (Option Reservation × Inventory)
commit_from ReservationStatus.held r s =
    some_of (settle LedgerReason.commit ReservationStatus.committed r s)
commit_from _ r s = ok (some r, s)

-- `commit_reservation`
unfoldable pub commit_reservation : Uuid → Inventory → Result (Option Reservation × Inventory)
commit_reservation order_id s = elim (lookup order_id s.reservations) [
  | none ↦ ok (none, s)
  | some r ↦ commit_from r.status r s
]

-- `_restock_committed`
unfoldable pub restock_committed : Reservation → Inventory → Result (Reservation × Inventory)
restock_committed r s = settle LedgerReason.restock ReservationStatus.released r s

abbrev pub release_from :
    ReservationStatus → Reservation → Inventory → Result (Option Reservation × Inventory)
release_from ReservationStatus.held r s =
    some_of (settle LedgerReason.release ReservationStatus.released r s)
release_from ReservationStatus.committed r s = some_of (restock_committed r s)
release_from _ r s = ok (some r, s)

-- `release_reservation`
unfoldable pub release_reservation : Uuid → Inventory → Result (Option Reservation × Inventory)
release_reservation order_id s = elim (lookup order_id s.reservations) [
  | none ↦ ok (none, s)
  | some r ↦ release_from r.status r s
]

abbrev pub is_held : ReservationStatus → Bool
is_held ReservationStatus.held = true
is_held _ = false

-- The WHERE clause of the sweeper's query; `elsewhere` says which orders' rows another transaction
-- has locked, which SKIP LOCKED passes over.
unfoldable pub is_stale : Datetime → (Uuid → Bool) → Reservation → Bool
is_stale now elsewhere r = is_held r.status && ltb r.expires_at now && not (elsewhere r.order_id)

-- ORDER BY expires_at, by insertion.
unfoldable pub insert_by_expiry : Reservation → List Reservation → List Reservation
insert_by_expiry r [] = r ∷ []
insert_by_expiry r (x ∷ xs) =
    if leb r.expires_at x.expires_at then r ∷ x ∷ xs else x ∷ insert_by_expiry r xs

unfoldable pub stale_reservations :
    Datetime → (Uuid → Bool) → List (Uuid × Reservation) → List Reservation
stale_reservations now elsewhere [] = []
stale_reservations now elsewhere ((_, r) ∷ rows) =
    let rest = stale_reservations now elsewhere rows in
    if is_stale now elsewhere r then insert_by_expiry r rest else rest

unfoldable pub expire_all : List Reservation → Inventory → Result Inventory
expire_all [] s = ok s
expire_all (r ∷ rs) s = do
  done ← settle LedgerReason.expire ReservationStatus.expired r s
  expire_all rs done.1

-- `expire_stale_reservations`
unfoldable pub expire_stale_reservations :
    ℕ → Datetime → (Uuid → Bool) → Inventory → Result (ℕ × Inventory)
expire_stale_reservations limit now elsewhere s =
    let stale = take limit (stale_reservations now elsewhere s.reservations) in
    do t ← expire_all stale s; ok (length stale, t)
