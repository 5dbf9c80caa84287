-- ===== src/Inventory/Invariant.antt =====
-- The invariant of the inventory's database.
use inventory_management_sys.Prelude.{
  ◌≡◌, ◌≤◌, ◌+◌, sym, subst, List, ◌∷◌, some, pos, ◌+ℤ◌, Dict, lookup, insert, lookup-insert,
  Distinct, Uuid, ◌==◌, arith, Bool-cases, inl, inr, ==_iff,
}
use inventory_management_sys.Common.Errors.{int_max}
use inventory_management_sys.Inventory.Models.{StockItem, StockLedger, Reservation, Inventory}
use inventory_management_sys.Inventory.Quantities.{
  available_of, reserved_of, held_of, ledger_sum, last_balance, available_of-insert,
}

-- The ledger explains the shelf: a product's deltas sum to what is available of it, and its newest
-- row names that balance.
pub record Audited (stock : Dict StockItem) (ledger : List StockLedger) : Type 0 where
  pub sums : (j : Uuid) → ledger_sum j ledger ≡ pos (available_of j stock)
  pub balances : (j : Uuid) → last_balance j ledger ≡ available_of j stock

-- The columns are in range; what a product has reserved is what the HELD reservations hold of it;
-- a reservation stands under its order's id, no two under one; the ledger explains the shelf.
pub record IsValid (s : Inventory) : Type 0 where
  pub available_fits : (j : Uuid) → available_of j s.stock ≤ int_max
  pub reserved_fits : (j : Uuid) → reserved_of j s.stock ≤ int_max
  pub reserved_held : (j : Uuid) → reserved_of j s.stock ≡ held_of j s.reservations
  pub keyed : (o : Uuid) (r : Reservation) → lookup o s.reservations ≡ some r → r.order_id ≡ o
  pub distinct : Distinct s.reservations
  pub audited : Audited s.stock s.ledger

-- Every unit of a product that is reserved would find room on the shelf.
abbrev pub HasRoom : Inventory → Type 0
HasRoom s = (j : Uuid) → available_of j s.stock + reserved_of j s.stock ≤ int_max

-- Every write that comes with a ledger row of its own difference keeps the ledger honest.
pub Audited-write :
    (k : Uuid) (row : StockItem) (entry : StockLedger) (stock : Dict StockItem)
    (ledger : List StockLedger)
    → entry.product_id ≡ k
    → entry.balance_after ≡ row.available_qty
    → entry.delta +ℤ pos (available_of k stock) ≡ pos row.available_qty
    → Audited stock ledger
    → Audited (insert k row stock) (entry ∷ ledger)
unfolding ledger_sum last_balance
Audited-write k row entry stock ledger same balance delta a = record {
  sums = λ j. elim (Bool-cases (j == k)) [
    | inl eq ↦
        let here : j ≡ k = (==_iff j k).0 eq in
        ground (arith, available_of-insert j k row stock, a.sums j)
    | inr ne ↦ ground (arith, available_of-insert j k row stock, a.sums j)
  ];
  balances = λ j. ground (arith, available_of-insert j k row stock, a.balances j);
}

-- Writing a reservation under its order's id keeps every one under its own.
pub keyed-insert :
    (r : Reservation) (d : Dict Reservation)
    → ((o : Uuid) (x : Reservation) → lookup o d ≡ some x → x.order_id ≡ o)
    → (o : Uuid) (x : Reservation) → lookup o (insert r.order_id r d) ≡ some x
    → x.order_id ≡ o
keyed-insert r d h o x e = ground (arith, lookup-insert o r.order_id r d, h o x)

-- A stored reservation stands under its own `order_id`.
pub own_row :
    {s : Inventory} (o : Uuid) (r : Reservation)
    → IsValid s
    → lookup o s.reservations ≡ some r
    → lookup r.order_id s.reservations ≡ some r
own_row {s} o r v e = subst (λ k. lookup k s.reservations ≡ some r) (sym (v.keyed o r e)) e
