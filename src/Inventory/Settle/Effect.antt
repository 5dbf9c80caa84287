-- ===== src/Inventory/Settle/Effect.antt =====
-- What the loops over a reservation's items do to the stock, for every product at once.
use inventory_management_sys.Prelude.{
  ℕ, ◌+◌, ◌-◌, ◌≡◌, ◌≤◌, refl, ◌∙◌, List, [], ◌∷◌, none, some, Dict, lookup, insert, contains, Uuid,
  ◌==◌, if◌then◌else◌, arith, ◌⊎◌, Option-cases, inl, inr,
}
use inventory_management_sys.Common.Errors.{ok, int_max, Result-cases}
use inventory_management_sys.Common.Events.{LedgerReason}
use inventory_management_sys.Inventory.Models.{StockItem, StockLedger, Inventory}
use inventory_management_sys.Inventory.Settle.{settle_row, settle_delta, settle_item, settle_items}
use inventory_management_sys.Inventory.Quantities.{
  available_of, reserved_of, qty_of, drawn, returned, counted, drawn-add, returned-add,
  available_of-insert, reserved_of-insert, contains-insert_old,
}

-- What the columns of a locked row become.
pub settle_row_lem :
    (reason : LedgerReason) (q : ℕ) (row new : StockItem)
    → settle_row reason q row ≡ ok new
    → (new.reserved_qty + drawn reason q ≡ row.reserved_qty)
      × (new.available_qty ≡ row.available_qty + returned reason q)
unfolding settle_row
settle_row_lem LedgerReason.commit q row new e = ground arith
settle_row_lem LedgerReason.restock q row new e = ground arith
settle_row_lem _ q row new e = ground arith

-- The flush accepts the row as long as enough is reserved and the shelf has room in its column.
pub settle_row-ok :
    (reason : LedgerReason) (q : ℕ) (row : StockItem)
    → drawn reason q ≤ row.reserved_qty
    → row.reserved_qty ≤ int_max
    → row.available_qty + returned reason q ≤ int_max
    → (new : StockItem) × (settle_row reason q row ≡ ok new)
unfolding settle_row
settle_row-ok LedgerReason.commit q row h r a =
    (record row { reserved_qty = row.reserved_qty - q }, ground arith)
settle_row-ok LedgerReason.restock q row h r a =
    (record row { available_qty = row.available_qty + q }, ground arith)
settle_row-ok _ q row h r a = (
  record row { reserved_qty = row.reserved_qty - q; available_qty = row.available_qty + q },
  ground arith,
)

-- n units of each product that has a row are taken off `reserved_qty` and given back, as the reason
-- says.
pub record Moves (reason : LedgerReason) (n : Uuid → ℕ) (s t : Dict StockItem) : Type 0 where
  pub reserved : (j : Uuid) → reserved_of j t + drawn reason (counted j s (n j)) ≡ reserved_of j s
  pub available :
      (j : Uuid) → available_of j t ≡ available_of j s + returned reason (counted j s (n j))
  pub same_rows : (j : Uuid) → contains j t ≡ contains j s

unfoldable pub one_of : Uuid → ℕ → Uuid → ℕ
one_of k q j = if j == k then q else 0

drawn-zero : (reason : LedgerReason) → drawn reason 0 ≡ 0
drawn-zero LedgerReason.restock = refl
drawn-zero _ = refl

returned-zero : (reason : LedgerReason) → returned reason 0 ≡ 0
returned-zero LedgerReason.commit = refl
returned-zero _ = refl

-- The ledger row of a round.
abbrev pub entry_of : LedgerReason → Uuid → Uuid → ℕ → StockItem → StockLedger
entry_of reason o k q new = record {
  product_id = k;
  delta = settle_delta reason q;
  reason = reason;
  ref_order_id = some o;
  balance_after = new.available_qty;
}

-- A round skips a product that has no row, or writes its row and the ledger.
pub record Writes (reason : LedgerReason) (o k : Uuid) (q : ℕ) (old new : StockItem)
    (s t : Inventory) : Type 0 where
  pub found : lookup k s.stock ≡ some old
  pub settled : settle_row reason q old ≡ ok new
  pub stock_lem : t.stock ≡ insert k new s.stock
  pub reservations_lem : t.reservations ≡ s.reservations
  pub ledger_lem : t.ledger ≡ entry_of reason o k q new ∷ s.ledger

pub settle_item-cases :
    (reason : LedgerReason) (o k : Uuid) (q : ℕ) (s t : Inventory)
    → settle_item reason o k q s ≡ ok t
    → ((lookup k s.stock ≡ none) × (t ≡ s))
      ⊎ ((old new : StockItem) × Writes reason o k q old new s t)
unfolding settle_item settle_delta
settle_item-cases reason o k q s t e = elim (Option-cases (lookup k s.stock)) [
  | inl missing ↦ inl (missing, ground arith)
  | inr (old, found) ↦ elim (Result-cases (settle_row reason q old)) [
    | inl (new, settled) ↦ inr (old, new, ground arith)
    | inr (x, failed) ↦ absurd (ground arith)
  ]
]

Writes-Moves :
    {reason : LedgerReason} {o k : Uuid} {q : ℕ} {old new : StockItem} {s t : Inventory}
    → Writes reason o k q old new s t
    → Moves reason (one_of k q) s.stock t.stock
unfolding one_of counted reserved_of available_of
Writes-Moves {reason} {o} {k} {q} {old} {new} {s} {t} w = record {
  reserved = λ j. ground (
    arith,
    w,
    settle_row_lem reason q old new w.settled,
    reserved_of-insert j k new s.stock,
    drawn-zero reason,
  );
  available = λ j. ground (
    arith,
    w,
    settle_row_lem reason q old new w.settled,
    available_of-insert j k new s.stock,
    returned-zero reason,
  );
  same_rows = λ j. ground (arith, w, contains-insert_old j k new s.stock {old = old});
}

Moves-zero :
    (reason : LedgerReason) (k : Uuid) (q : ℕ) (s : Inventory)
    → lookup k s.stock ≡ none
    → Moves reason (one_of k q) s.stock s.stock
unfolding one_of counted
Moves-zero reason k q s e = record {
  reserved = λ j. ground (arith, drawn-zero reason);
  available = λ j. ground (arith, returned-zero reason);
  same_rows = λ j. refl;
}

pub settle_item-Moves :
    (reason : LedgerReason) (o k : Uuid) (q : ℕ) (s t : Inventory)
    → settle_item reason o k q s ≡ ok t
    → Moves reason (one_of k q) s.stock t.stock × (t.reservations ≡ s.reservations)
settle_item-Moves reason o k q s t e = elim (settle_item-cases reason o k q s t e) [
  | inl (missing, same) ↦ rw same (Moves-zero reason k q s missing, refl)
  | inr (old, new, w) ↦ (Writes-Moves w, w.reservations_lem)
]

pub counted-same :
    (j : Uuid) (s t : Dict StockItem) (n : ℕ)
    → contains j t ≡ contains j s
    → counted j t n ≡ counted j s n
unfolding counted
counted-same j s t n e = rw e

pub counted-add :
    (j : Uuid) (s : Dict StockItem) (m n : ℕ) → counted j s (m + n) ≡ counted j s m + counted j s n
unfolding counted
counted-add j s m n = ground arith

-- Two moves one after the other.
Moves-trans :
    {reason : LedgerReason} (m n : Uuid → ℕ) (s t u : Dict StockItem)
    → Moves reason m s t
    → Moves reason n t u
    → Moves reason (λ j. m j + n j) s u
Moves-trans {reason} m n s t u a b = record {
  reserved = λ j.
      rw (counted-add j s (m j) (n j), drawn-add)
        (omega
          (arith, a.reserved j, rw (counted-same j s t (n j) (a.same_rows j)) at (b.reserved j)));
  available = λ j.
      rw (counted-add j s (m j) (n j), returned-add)
        (omega
          (arith, a.available j, rw (counted-same j s t (n j) (a.same_rows j)) at (b.available j)));
  same_rows = λ j. b.same_rows j ∙ a.same_rows j;
}

Moves-nil : (reason : LedgerReason) (s : Dict StockItem) → Moves reason (λ j. qty_of j []) s s
unfolding counted qty_of
Moves-nil reason s = record {
  reserved = λ j. ground (arith, drawn-zero reason);
  available = λ j. ground (arith, returned-zero reason);
  same_rows = λ j. refl;
}

-- The whole loop moves what the items name, and touches no reservation.
pub settle_items-Moves :
    (reason : LedgerReason) (o : Uuid) (items : List (Uuid × ℕ)) (s t : Inventory)
    → settle_items reason o items s ≡ ok t
    → Moves reason (λ j. qty_of j items) s.stock t.stock × (t.reservations ≡ s.reservations)
unfolding settle_items qty_of one_of
settle_items-Moves reason o [] s t e =
    let same : s ≡ t = ground arith in rw (← same) (Moves-nil reason s.stock, refl)
settle_items-Moves reason o ((k, q) ∷ items) s t e =
    elim (Result-cases (settle_item reason o k q s)) [
      | inr (x, failed) ↦ absurd (ground arith)
      | inl (u, first) ↦
          let rest : settle_items reason o items u ≡ ok t = ground arith in
          let (a, same) = settle_item-Moves reason o k q s u first in
          let (b, same') = settle_items-Moves reason o items u t rest in
          (Moves-trans (one_of k q) (λ j. qty_of j items) s.stock u.stock t.stock a b, same' ∙ same)
    ]
