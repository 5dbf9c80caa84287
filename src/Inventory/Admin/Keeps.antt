-- ===== src/Inventory/Admin/Keeps.antt =====
-- A restock and a stock-take correction: what they do to the shelf, and that they keep the invariant.
use inventory_management_sys.Prelude.{
  ℕ, ◌≡◌, ◌≤◌, refl, sym, ap, ◌∙◌, subst, inl, inr, ◌∷◌, none, Option, String, ℤ, pos, ◌+ℤ◌, ◌-ℤ◌,
  lookup, insert, Uuid, ◌==◌, arith, int_laws, Option-cases, Bool-cases, ==_iff,
}
use inventory_management_sys.Common.Errors.{ok, Result-cases, int_max, column, column-eq-ok}
use inventory_management_sys.Common.Events.{LedgerReason}
use inventory_management_sys.Inventory.Models.{StockItem, StockLedger, Inventory, Settings}
use inventory_management_sys.Inventory.Quantities.{
  available_of, reserved_of, available_of-insert, reserved_of-insert,
}
use inventory_management_sys.Inventory.Invariant.{IsValid, Audited-write}
use inventory_management_sys.Inventory.Admin.{
  sku_taken, upsert_row, upsert_stock_item, adjust_stock,
}

-- A row is written with the reserved units that it had, and the ledger names the difference.
pub record Rewrites (k : Uuid) (delta : ℤ) (row : StockItem) (s t : Inventory) : Type 0 where
  pub reserved : row.reserved_qty ≡ reserved_of k s.stock
  pub available : delta +ℤ pos (available_of k s.stock) ≡ pos row.available_qty
  pub fits : row.available_qty ≤ int_max
  pub stock_lem : t.stock ≡ insert k row s.stock
  pub reservations_lem : t.reservations ≡ s.reservations
  pub entry : StockLedger
  pub product_lem : entry.product_id ≡ k
  pub delta_lem : entry.delta ≡ delta
  pub balance_lem : entry.balance_after ≡ row.available_qty
  pub ledger_lem : t.ledger ≡ entry ∷ s.ledger

pub Rewrites-reserved :
    {k : Uuid} {delta : ℤ} {row : StockItem} {s t : Inventory}
    → Rewrites k delta row s t
    → (j : Uuid) → reserved_of j t.stock ≡ reserved_of j s.stock
Rewrites-reserved {k} {delta} {row} {s} {t} w j = elim (Bool-cases (j == k)) [
  | inl eq ↦
      let same : j ≡ k = (==_iff j k).0 eq in
      rw w.stock_lem (ground (arith, w.reserved, reserved_of-insert j k row s.stock))
  | inr ne ↦ rw w.stock_lem (ground (arith, reserved_of-insert j k row s.stock))
]

pub Rewrites-IsValid :
    {k : Uuid} {delta : ℤ} {row : StockItem} {s t : Inventory}
    → Rewrites k delta row s t
    → IsValid s
    → IsValid t
Rewrites-IsValid {k} {delta} {row} {s} {t} w v = record {
  available_fits = λ j.
      rw w.stock_lem
        (ground (arith, available_of-insert j k row s.stock, v.available_fits j, w.fits));
  reserved_fits = λ j. rw (Rewrites-reserved w j) (v.reserved_fits j);
  reserved_held = λ j. rw (Rewrites-reserved w j, w.reservations_lem) (v.reserved_held j);
  keyed = rw w.reservations_lem v.keyed;
  distinct = rw w.reservations_lem v.distinct;
  audited =
      rw (w.stock_lem, w.ledger_lem)
        (Audited-write k row w.entry s.stock s.ledger w.product_lem w.balance_lem
          (rw w.delta_lem w.available) v.audited);
}

module _ (upper : String → String) (settings : Settings) where
  upsert_row_lem :
      (k : Uuid) (sku : String) (quantity : ℤ) (threshold : Option ℕ) (row : StockItem)
      (s : Inventory)
      → upsert_row upper settings k sku quantity threshold s ≡ ok row
      → (row.reserved_qty ≡ reserved_of k s.stock)
        × (quantity +ℤ pos (available_of k s.stock) ≡ pos row.available_qty)
        × (row.available_qty ≤ int_max)
  unfolding upsert_row reserved_of available_of ◌+ℤ◌
  upsert_row_lem k sku quantity threshold row s e = elim (Option-cases (lookup k s.stock)) [
    | inl missing ↦ elim (Bool-cases (sku_taken (upper sku) s.stock)) [
      | inl taken ↦ absurd (ground arith)
      | inr fresh ↦ ground arith
    ]
    | inr (old, found) ↦ ground arith
  ]

  -- A restock that returns has written one stock row, in range and with the reserved units it had,
  -- whose available units are the old ones and the quantity; the ledger gains one row with that
  -- delta and that balance, and no reservation changes.
  pub upsert_stock_item-Rewrites :
      (k : Uuid) (sku : String) (quantity : ℤ) (threshold : Option ℕ) (row : StockItem)
      (s t : Inventory)
      → upsert_stock_item upper settings k sku quantity threshold s ≡ ok (row, t)
      → Rewrites k quantity row s t
  unfolding upsert_stock_item
  upsert_stock_item-Rewrites k sku quantity threshold row s t e =
      elim (Result-cases (upsert_row upper settings k sku quantity threshold s)) [
        | inr (x, failed) ↦ absurd (ground arith)
        | inl (new, made) ↦
            let same : new ≡ row = ground arith in
            let (reserved, available, fits) = upsert_row_lem k sku quantity threshold row s (
              subst (λ r. upsert_row upper settings k sku quantity threshold s ≡ ok r) same made) in
            record {
              reserved = reserved;
              available = available;
              fits = fits;
              stock_lem = ground arith;
              reservations_lem = ground arith;
              entry = record {
                product_id = k;
                delta = quantity;
                reason = LedgerReason.restock;
                ref_order_id = none;
                balance_after = row.available_qty;
              };
              product_lem = refl;
              delta_lem = refl;
              balance_lem = refl;
              ledger_lem = ground arith;
            }
      ]

sub-add : (a b : ℤ) → a -ℤ b +ℤ b ≡ a
sub-add a b = omega int_laws

-- A stock-take correction that returns has written one stock row, in range and with the reserved
-- units it had, whose available units are the counted ones; the ledger gains one row with the
-- difference as its delta and the count as its balance, and no reservation changes.
pub adjust_stock-Rewrites :
    (k : Uuid) (available : ℤ) (threshold : Option ℕ) (row : StockItem) (s t : Inventory)
    → adjust_stock k available threshold s ≡ ok (row, t)
    → (pos row.available_qty ≡ available)
      × Rewrites k (available -ℤ pos (available_of k s.stock)) row s t
unfolding adjust_stock reserved_of available_of
adjust_stock-Rewrites k available threshold row s t e = elim (Option-cases (lookup k s.stock)) [
  | inl missing ↦ absurd (ground arith)
  | inr (old, found) ↦ elim (Result-cases (column available)) [
    | inr (x, failed) ↦ absurd (ground arith)
    | inl (n, fine) ↦
        let (exact, fits) = column-eq-ok available n fine in
        let new : row.available_qty ≡ n = ground arith in
        (
          rw (new, exact),
          record {
            reserved = ground arith;
            available = sub-add available (pos (available_of k s.stock)) ∙ exact ∙ ap pos (sym new);
            fits = rw new fits;
            stock_lem = ground arith;
            reservations_lem = ground arith;
            entry = record {
              product_id = k;
              delta = available -ℤ pos old.available_qty;
              reason = LedgerReason.adjust;
              ref_order_id = none;
              balance_after = row.available_qty;
            };
            product_lem = refl;
            delta_lem = ground arith;
            balance_lem = refl;
            ledger_lem = ground arith;
          },
        )
  ]
]
