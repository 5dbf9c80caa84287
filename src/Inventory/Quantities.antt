-- ===== src/Inventory/Quantities.antt =====
-- The quantities by which the inventory's laws are stated: what the tables hold of one product.
use inventory_management_sys.Prelude.{
  ℕ, ◌+◌, ◌≡◌, ◌≤◌, refl, List, [], ◌∷◌, none, some, ℤ, pos, ◌+ℤ◌, Dict, lookup, insert, contains,
  lookup-insert, Uuid, ◌==◌, if◌then◌else◌, arith,
}
use inventory_management_sys.Common.Events.{LedgerReason}
use inventory_management_sys.Inventory.Models.{StockItem, Reservation, StockLedger}
use inventory_management_sys.Inventory.Settle.{is_held}

unfoldable pub available_of : Uuid → Dict StockItem → ℕ
available_of j stock = elim (lookup j stock) [ none ↦ 0 | some row ↦ row.available_qty ]

unfoldable pub reserved_of : Uuid → Dict StockItem → ℕ
reserved_of j stock = elim (lookup j stock) [ none ↦ 0 | some row ↦ row.reserved_qty ]

-- The units of a product among some lines.
unfoldable pub qty_of : Uuid → List (Uuid × ℕ) → ℕ
qty_of j [] = 0
qty_of j ((k, q) ∷ items) = (if j == k then q else 0) + qty_of j items

-- The units of a product that a reservation holds.
unfoldable pub held_by : Uuid → Reservation → ℕ
unfolding qty_of
held_by j r = if is_held r.status then qty_of j r.items else 0

unfoldable pub held_of : Uuid → Dict Reservation → ℕ
unfolding held_by
held_of j [] = 0
held_of j ((_, r) ∷ rows) = held_by j r + held_of j rows

-- The sum of a product's ledger deltas.
unfoldable pub ledger_sum : Uuid → List StockLedger → ℤ
ledger_sum j [] = pos 0
ledger_sum j (entry ∷ entries) =
    let rest = ledger_sum j entries in if j == entry.product_id then entry.delta +ℤ rest else rest

-- The balance in a product's newest ledger row.
unfoldable pub last_balance : Uuid → List StockLedger → ℕ
last_balance j [] = 0
last_balance j (entry ∷ entries) =
    if j == entry.product_id then entry.balance_after else last_balance j entries

-- What an operation takes off `reserved_qty` and adds to `available_qty` for q units.
abbrev pub drawn : LedgerReason → ℕ → ℕ
drawn LedgerReason.restock q = 0
drawn _ q = q

abbrev pub returned : LedgerReason → ℕ → ℕ
returned LedgerReason.commit q = 0
returned _ q = q

-- A product with no stock row is not counted.
unfoldable pub counted : Uuid → Dict StockItem → ℕ → ℕ
counted j stock n = if contains j stock then n else 0

pub held_of-insert :
    (j k : Uuid) (r : Reservation) (d : Dict Reservation) {old : Reservation}
    → lookup k d ≡ some old
    → held_of j (insert k r d) + held_by j old ≡ held_of j d + held_by j r
unfolding held_of lookup insert
held_of-insert j k r [] e = cc
held_of-insert j k r ((i, x) ∷ d) {old} e = ground (arith, held_of-insert j k r d {old = old})

pub held_of-insert_new :
    (j k : Uuid) (r : Reservation) (d : Dict Reservation)
    → lookup k d ≡ none
    → held_of j (insert k r d) ≡ held_of j d + held_by j r
unfolding held_of lookup insert
held_of-insert_new j k r [] e = ground arith
held_of-insert_new j k r ((i, x) ∷ d) e = ground (arith, held_of-insert_new j k r d)

pub held_by-le :
    (j k : Uuid) (d : Dict Reservation) {r : Reservation}
    → lookup k d ≡ some r
    → held_by j r ≤ held_of j d
unfolding held_of lookup
held_by-le j k [] e = cc
held_by-le j k ((i, x) ∷ d) {r} e = ground (arith, held_by-le j k d {r = r})

pub drawn-add :
    (reason : LedgerReason) (a b : ℕ) → drawn reason (a + b) ≡ drawn reason a + drawn reason b
drawn-add LedgerReason.restock a b = omega arith
drawn-add _ a b = refl

pub returned-add :
    (reason : LedgerReason) (a b : ℕ)
    → returned reason (a + b) ≡ returned reason a + returned reason b
returned-add LedgerReason.commit a b = omega arith
returned-add _ a b = refl

pub available_of-insert :
    (j k : Uuid) (row : StockItem) (d : Dict StockItem)
    → available_of j (insert k row d) ≡ (if j == k then row.available_qty else available_of j d)
unfolding available_of
available_of-insert j k row d = ground (arith, lookup-insert j k row d)

pub reserved_of-insert :
    (j k : Uuid) (row : StockItem) (d : Dict StockItem)
    → reserved_of j (insert k row d) ≡ (if j == k then row.reserved_qty else reserved_of j d)
unfolding reserved_of
reserved_of-insert j k row d = ground (arith, lookup-insert j k row d)

-- Writing a row that was there adds no product.
pub contains-insert_old :
    (j k : Uuid) (row : StockItem) (d : Dict StockItem) {old : StockItem}
    → lookup k d ≡ some old
    → contains j (insert k row d) ≡ contains j d
contains-insert_old j k row d {old} e = ground (arith, lookup-insert j k row d)

pub available_of_found :
    (k : Uuid) (d : Dict StockItem) (row : StockItem)
    → lookup k d ≡ some row
    → available_of k d ≡ row.available_qty
unfolding available_of
available_of_found k d row e = ground arith

pub reserved_of_found :
    (k : Uuid) (d : Dict StockItem) (row : StockItem)
    → lookup k d ≡ some row
    → reserved_of k d ≡ row.reserved_qty
unfolding reserved_of
reserved_of_found k d row e = ground arith
