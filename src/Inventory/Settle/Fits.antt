-- ===== src/Inventory/Settle/Fits.antt =====
-- When the loops of `commit_reservation`, `release_reservation`, `_restock_committed` and
-- `expire_stale_reservations` do not fail.
use inventory_management_sys.Prelude.{
  ℕ, ◌+◌, ◌≡◌, ◌≤◌, refl, List, [], ◌∷◌, Dict, lookup, Uuid, arith, Option-cases, inl, inr,
}
use inventory_management_sys.Common.Errors.{ok, int_max, Result-cases}
use inventory_management_sys.Common.Events.{LedgerReason}
use inventory_management_sys.Inventory.Models.{StockItem, Inventory}
use inventory_management_sys.Inventory.Settle.{settle_item, settle_items}
use inventory_management_sys.Inventory.Quantities.{
  available_of, reserved_of, qty_of, drawn, returned, counted, drawn-add, returned-add,
}
use inventory_management_sys.Inventory.Settle.Effect.{
  one_of, settle_row-ok, Moves, settle_item-Moves, counted-same, counted-add,
}

-- Enough is reserved of every product, and the shelf has room in its column.
pub record Fits (reason : LedgerReason) (n : Uuid → ℕ) (s : Dict StockItem) : Type 0 where
  pub enough : (j : Uuid) → drawn reason (counted j s (n j)) ≤ reserved_of j s
  pub in_column : (j : Uuid) → reserved_of j s ≤ int_max
  pub room : (j : Uuid) → available_of j s + returned reason (counted j s (n j)) ≤ int_max

settle_item-ok :
    (reason : LedgerReason) (o k : Uuid) (q : ℕ) (s : Inventory)
    → Fits reason (one_of k q) s.stock
    → (t : Inventory) × (settle_item reason o k q s ≡ ok t)
unfolding settle_item one_of counted reserved_of available_of
settle_item-ok reason o k q s f = elim (Result-cases (settle_item reason o k q s)) [
  | inl done ↦ done
  | inr (x, failed) ↦ elim (Option-cases (lookup k s.stock)) [
    | inl missing ↦ absurd (ground arith)
    | inr (old, found) ↦
        let (new, settled) =
          settle_row-ok reason q old (ground (arith, f.enough k)) (ground (arith, f.in_column k))
            (ground (arith, f.room k)) in
        absurd (ground arith)
  ]
]

Fits-first :
    {reason : LedgerReason} (m n : Uuid → ℕ) (s : Dict StockItem)
    → Fits reason (λ j. m j + n j) s
    → Fits reason m s
Fits-first {reason} m n s f = record {
  enough = λ j. let h = rw (counted-add j s (m j) (n j), drawn-add) at (f.enough j) in omega arith;
  in_column = f.in_column;
  room = λ j. let h = rw (counted-add j s (m j) (n j), returned-add) at (f.room j) in omega arith;
}

Fits-rest :
    {reason : LedgerReason} (m n : Uuid → ℕ) (s t : Dict StockItem)
    → Fits reason (λ j. m j + n j) s
    → Moves reason m s t
    → Fits reason n t
Fits-rest {reason} m n s t f v = record {
  enough = λ j.
      let h = rw (counted-add j s (m j) (n j), drawn-add) at (f.enough j) in
      rw (counted-same j s t (n j) (v.same_rows j)) (omega (arith, v.reserved j));
  in_column = λ j. omega (arith, f.in_column j, v.reserved j);
  room = λ j.
      let h = rw (counted-add j s (m j) (n j), returned-add) at (f.room j) in
      rw (counted-same j s t (n j) (v.same_rows j)) (omega (arith, v.available j));
}

-- A loop over items that fit never fails.
pub settle_items-ok :
    (reason : LedgerReason) (o : Uuid) (items : List (Uuid × ℕ)) (s : Inventory)
    → Fits reason (λ j. qty_of j items) s.stock
    → (t : Inventory) × (settle_items reason o items s ≡ ok t)
unfolding settle_items qty_of one_of
settle_items-ok reason o [] s f = (s, refl)
settle_items-ok reason o ((k, q) ∷ items) s f =
    let m = one_of k q in
    let (u, first) = settle_item-ok reason o k q s (Fits-first m (λ j. qty_of j items) s.stock f) in
    let (moved, _) = settle_item-Moves reason o k q s u first in
    let (t, rest) =
      settle_items-ok reason o items u
        (Fits-rest m (λ j. qty_of j items) s.stock u.stock f moved) in
    (t, rw first rest)
