-- ===== src/Inventory/Tests/Admin.antt =====
-- `upsert_stock_item` and `adjust_stock` of services/inventory/app/services.py on a shelf of ten.
use inventory_management_sys.Prelude.{◌≡◌, refl, none, pos, lookup, insert, ◌-ℤ◌}
use inventory_management_sys.Common.Errors.{ok, column}
use inventory_management_sys.Inventory.Models.{StockItem}
use inventory_management_sys.Inventory.Quantities.{available_of}
use inventory_management_sys.Inventory.Admin.{upsert_row, upsert_stock_item, adjust_stock}
use inventory_management_sys.Inventory.Admin.Keeps.{
  Rewrites, upsert_stock_item-Rewrites, adjust_stock-Rewrites,
}
use inventory_management_sys.Inventory.Tests.{settings, upper, after, stocked}

-- A second delivery of three units, and a stock-take that finds eight.
upsert_ok :
    upsert_stock_item upper settings 1 "MUG-1" (pos 3) none stocked
    ≡ ok (
      record {
        product_id = 1;
        sku = "MUG-1";
        available_qty = 13;
        reserved_qty = 0;
        low_stock_threshold = 10;
      },
      after (upsert_stock_item upper settings 1 "MUG-1" (pos 3) none stocked),
    )
unfolding upsert_stock_item upsert_row column lookup insert
upsert_ok = refl

upsert_stock_item-Rewrites_example :
    Rewrites 1
      (pos 3)
      (record {
        product_id = 1;
        sku = "MUG-1";
        available_qty = 13;
        reserved_qty = 0;
        low_stock_threshold = 10;
      })
      stocked
      (after (upsert_stock_item upper settings 1 "MUG-1" (pos 3) none stocked))
upsert_stock_item-Rewrites_example =
    upsert_stock_item-Rewrites upper settings 1 "MUG-1" (pos 3) none
      (record {
        product_id = 1;
        sku = "MUG-1";
        available_qty = 13;
        reserved_qty = 0;
        low_stock_threshold = 10;
      })
      stocked (after (upsert_stock_item upper settings 1 "MUG-1" (pos 3) none stocked)) upsert_ok

abbrev eight : StockItem
eight = record {
  product_id = 1;
  sku = "MUG-1";
  available_qty = 8;
  reserved_qty = 0;
  low_stock_threshold = 10;
}

adjust_ok :
    adjust_stock 1 (pos 8) none stocked ≡ ok (eight, after (adjust_stock 1 (pos 8) none stocked))
unfolding upsert_stock_item upsert_row column lookup insert adjust_stock
adjust_ok = refl

adjust_stock-Rewrites_example :
    (pos 8 ≡ pos 8)
    × Rewrites 1
        (pos 8 -ℤ pos (available_of 1 stocked.stock))
        eight
        stocked
        (after (adjust_stock 1 (pos 8) none stocked))
adjust_stock-Rewrites_example =
    adjust_stock-Rewrites 1 (pos 8) none eight stocked (after (adjust_stock 1 (pos 8) none stocked))
      adjust_ok
