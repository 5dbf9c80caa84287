-- ===== src/Inventory/Records.antt =====
-- The internals of InventoryService (services/inventory/app/services.py): ledger rows and events.
use inventory_management_sys.Prelude.{
  ℕ, List, ◌∷◌, map, Option, String, ℤ, insert, Uuid, Decimal, if◌then◌else◌,
}
use inventory_management_sys.Common.Events.{
  Topic, Payload, LedgerReason, PaymentMethod, InsufficientItem, ReservedItem,
}
use inventory_management_sys.Common.Outbox.{enqueue_event}
use inventory_management_sys.Inventory.Models.{StockItem, Reservation, Inventory, is_low}

-- `_record_ledger`
unfoldable pub record_ledger : Uuid → ℤ → LedgerReason → Option Uuid → ℕ → Inventory → Inventory
record_ledger product_id delta reason order_id balance_after s = record s {
  ledger =
      record {
        product_id = product_id;
        delta = delta;
        reason = reason;
        ref_order_id = order_id;
        balance_after = balance_after;
      }
      ∷ s.ledger;
}

-- `enqueue_event` on this service's outbox
unfoldable pub publish : Topic → Uuid → Payload → Inventory → Inventory
publish topic key payload s = record s { outbox = enqueue_event topic key payload key s.outbox }

-- `_publish_stock_changed`
unfoldable pub publish_stock_changed :
    StockItem → LedgerReason → Option Uuid → Inventory → Inventory
unfolding publish
publish_stock_changed row reason order_id s =
    publish Topic.inventory_stock_changed row.product_id
      (Payload.stock_changed (record {
        product_id = row.product_id;
        sku = row.sku;
        available_qty = row.available_qty;
        reserved_qty = row.reserved_qty;
        reason = reason;
        ref_order_id = order_id;
      }))
      s

-- `_maybe_publish_low_stock`
unfoldable pub maybe_publish_low_stock : StockItem → Inventory → Inventory
unfolding is_low publish
maybe_publish_low_stock row s =
    if is_low row
    then publish Topic.inventory_low_stock row.product_id
        (Payload.low_stock (record {
          product_id = row.product_id;
          sku = row.sku;
          available_qty = row.available_qty;
          threshold = row.low_stock_threshold;
        }))
        s
    else s

abbrev to_reserved_item : Uuid × ℕ → ReservedItem
to_reserved_item (product_id, quantity) = record { product_id = product_id; quantity = quantity }

-- `_publish_reserved`
unfoldable pub publish_reserved :
    Reservation → List (Uuid × ℕ) → Decimal → String → PaymentMethod → Inventory → Inventory
unfolding publish
publish_reserved reservation wanted total_amount currency payment_method s =
    publish Topic.inventory_reserved reservation.order_id
      (Payload.reserved (record {
        order_id = reservation.order_id;
        user_id = reservation.user_id;
        reservation_id = reservation.id;
        expires_at = reservation.expires_at;
        items = map to_reserved_item wanted;
        total_amount = total_amount;
        currency = currency;
        payment_method = payment_method;
      }))
      s

-- `_publish_reservation_failed`
unfoldable pub publish_reservation_failed :
    Uuid → Uuid → String → List InsufficientItem → Inventory → Inventory
unfolding publish
publish_reservation_failed order_id user_id reason insufficient s =
    publish Topic.inventory_reservation_failed order_id
      (Payload.reservation_failed (record {
        order_id = order_id;
        user_id = user_id;
        reason = reason;
        insufficient_items = insufficient;
      }))
      s

-- What the session writes when a locked row's columns change: the row itself.
unfoldable pub put_row : Uuid → StockItem → Inventory → Inventory
put_row product_id row s = record s { stock = insert product_id row s.stock }

unfoldable pub put_reservation : Uuid → Reservation → Inventory → Inventory
put_reservation order_id r s = record s { reservations = insert order_id r s.reservations }

-- The row lock of `with_for_update()`.
unfoldable pub lock : Uuid → Inventory → Inventory
lock product_id s = record s { locked = product_id ∷ s.locked }
