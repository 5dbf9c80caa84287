-- ===== src/Inventory/Models.antt =====
-- The tables of services/inventory/app/models.py and its settings.
use inventory_management_sys.Prelude.{
  ℕ, ◌+◌, Bool, List, Option, String, ℤ, Dict, Uuid, Datetime, leb,
}
use inventory_management_sys.Common.Events.{LedgerReason}
use inventory_management_sys.Common.Outbox.{OutboxRow}

pub data ReservationStatus : Type 0 where
  held committed released expired : ReservationStatus

pub record StockItem : Type 0 where
  pub product_id : Uuid
  pub sku : String
  pub available_qty : ℕ
  pub reserved_qty : ℕ
  pub low_stock_threshold : ℕ

unfoldable pub total_qty : StockItem → ℕ
total_qty row = row.available_qty + row.reserved_qty

unfoldable pub is_low : StockItem → Bool
is_low row = leb row.available_qty row.low_stock_threshold

-- A row of `reservations` with its rows of `reservation_items`: product and quantity.
pub record Reservation : Type 0 where
  pub id : Uuid
  pub order_id : Uuid
  pub user_id : Uuid
  pub status : ReservationStatus
  pub expires_at : Datetime
  pub items : List (Uuid × ℕ)

pub record StockLedger : Type 0 where
  pub product_id : Uuid
  pub delta : ℤ
  pub reason : LedgerReason
  pub ref_order_id : Option Uuid
  pub balance_after : ℕ

-- The database. `stock` is keyed by the primary key `product_id` and `reservations` by the UNIQUE
-- `order_id`; the ledger lists its newest row first. `locked` records in what order
-- stock rows were locked FOR UPDATE, the last one first; the end of a transaction does not clear it.
pub record Inventory : Type 0 where
  pub stock : Dict StockItem
  pub reservations : Dict Reservation
  pub ledger : List StockLedger
  pub outbox : List OutboxRow
  pub locked : List Uuid

pub record Settings : Type 0 where
  pub reservation_ttl_minutes : ℕ
  pub sweeper_batch_size : ℕ
  pub default_low_stock_threshold : ℕ
