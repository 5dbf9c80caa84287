-- ===== src/Inventory/Admin.antt =====
-- The administrative operations of services/inventory/app/services.py: `upsert_stock_item` (restock
-- and seeding) and `adjust_stock` (a stock-take correction).
pub mod Keeps
use inventory_management_sys.Prelude.{
  ℕ, [], ◌∷◌, Option, none, some, Bool, false, ◌||◌, String, ℤ, pos, ◌+ℤ◌, ◌-ℤ◌, Dict, lookup, Uuid,
  if◌then◌else◌,
}
use text.Mathlib.Text.{◌==◌ as str_eq}
use inventory_management_sys.Common.Errors.{Error, Result, ok, err, ◌>>=◌, column}
use inventory_management_sys.Common.Events.{LedgerReason}
use inventory_management_sys.Inventory.Models.{StockItem, Inventory, Settings}
use inventory_management_sys.Inventory.Records.{
  record_ledger, publish_stock_changed, maybe_publish_low_stock, put_row, lock,
}

-- `value if value is not None else default`
unfoldable pub threshold_or : Option ℕ → ℕ → ℕ
threshold_or none default = default
threshold_or (some value) default = value

-- The UNIQUE constraint on `sku`.
unfoldable pub sku_taken : String → Dict StockItem → Bool
sku_taken sku [] = false
sku_taken sku ((_, row) ∷ stock) = str_eq sku row.sku || sku_taken sku stock

-- The row that an upsert writes. `upper` is Python's `str.upper`.
unfoldable pub upsert_row :
    (String → String) → Settings → Uuid → String → ℤ → Option ℕ → Inventory → Result StockItem
unfolding column ◌+ℤ◌ threshold_or sku_taken
upsert_row upper settings product_id sku quantity threshold s = elim (lookup product_id s.stock) [
  | none ↦ if sku_taken (upper sku) s.stock then err Error.integrity_error else do
    available ← column quantity
    ok (record {
      product_id = product_id;
      sku = upper sku;
      available_qty = available;
      reserved_qty = 0;
      low_stock_threshold = threshold_or threshold settings.default_low_stock_threshold;
    })
  | some old ↦ do
    available ← column (pos old.available_qty +ℤ quantity)
    ok (record old {
      available_qty = available;
      low_stock_threshold = threshold_or threshold old.low_stock_threshold;
    })
]

-- `upsert_stock_item`
unfoldable pub upsert_stock_item :
    (String → String)
    → Settings
    → Uuid
    → String
    → ℤ
    → Option ℕ
    → Inventory
    → Result (StockItem × Inventory)
unfolding record_ledger publish_stock_changed put_row lock
upsert_stock_item upper settings product_id sku quantity threshold s = do
  row ← upsert_row upper settings product_id sku quantity threshold s
  ok (
    row,
    publish_stock_changed row LedgerReason.restock none (
        record_ledger product_id quantity LedgerReason.restock none row.available_qty
          (put_row product_id row (lock product_id s))),
  )

-- `adjust_stock`
unfoldable pub adjust_stock : Uuid → ℤ → Option ℕ → Inventory → Result (StockItem × Inventory)
unfolding column ◌-ℤ◌ threshold_or record_ledger publish_stock_changed maybe_publish_low_stock
    put_row lock
adjust_stock product_id available_qty threshold s = elim (lookup product_id s.stock) [
  | none ↦ err Error.not_found
  | some old ↦ do
    available ← column available_qty
    let row : StockItem = record old {
      available_qty = available;
      low_stock_threshold = threshold_or threshold old.low_stock_threshold;
    }
    ok (
      row,
      maybe_publish_low_stock row (
          publish_stock_changed row LedgerReason.adjust none (
            record_ledger product_id (available_qty -ℤ pos old.available_qty) LedgerReason.adjust
              none row.available_qty (put_row product_id row (lock product_id s)))),
    )
]
