-- ===== src/Inventory/Tests/Sweep.antt =====
-- `expire_stale_reservations` of services/inventory/app/services.py on a hold of three.
use inventory_management_sys.Prelude.{
  ℕ, ◌≡◌, ◌≤◌, ◌+◌, refl, some, Uuid, Bool, false, lookup, insert, arith,
}
use inventory_management_sys.Common.Errors.{ok}
use inventory_management_sys.Inventory.Models.{ReservationStatus, Inventory}
use inventory_management_sys.Inventory.Quantities.{available_of, reserved_of}
use inventory_management_sys.Inventory.Invariant.{IsValid, HasRoom}
use inventory_management_sys.Inventory.Settle.{
  settle_row, settle_item, settle_items, settle, is_stale, insert_by_expiry, stale_reservations,
  expire_all, expire_stale_reservations,
}
use inventory_management_sys.Inventory.Settle.Expire.{
  expire_stale_reservations_lem, expire_stale_reservations-none_left,
}
use inventory_management_sys.Inventory.Settle.Expire.Rounds.{Sweeps}
use inventory_management_sys.Inventory.Reserve.{
  positive, quantity_in, aggregate, insert_by_id, sort_by_id, lock_rows, insufficient_items,
  reserve_item, reserve_items, new_reservation, reserve_checked, reserve_new, reserve,
}
use inventory_management_sys.Inventory.Admin.{upsert_row, upsert_stock_item}
use inventory_management_sys.Inventory.Tests.{after, held_db, held_row, held_db-IsValid}

held_room : HasRoom held_db
unfolding upsert_stock_item upsert_row reserve reserve_new aggregate positive quantity_in lookup
    insert insert_by_id sort_by_id lock_rows insufficient_items reserve_checked new_reservation
    reserve_items reserve_item available_of reserved_of
held_room j = ground arith

-- No row is locked by anybody else.
abbrev nobody : Uuid → Bool
nobody o = false

expire_stale_reservations_lem_example :
    (n : ℕ) × (t : Inventory) × (expire_stale_reservations 5 2000 nobody held_db ≡ ok (n, t))
    × (n ≤ 5)
    × IsValid t
    × ((j : Uuid)
        → available_of j t.stock + reserved_of j t.stock
          ≡ available_of j held_db.stock + reserved_of j held_db.stock)
    × ((o : Uuid) → Sweeps 2000 nobody held_db.reservations t.reservations o)
expire_stale_reservations_lem_example =
    expire_stale_reservations_lem 5 2000 nobody held_db held_db-IsValid held_room

abbrev swept_db : Inventory
swept_db = after (expire_stale_reservations 5 2000 nobody held_db)

sweep_ok : expire_stale_reservations 5 2000 nobody held_db ≡ ok (1, swept_db)
unfolding upsert_stock_item upsert_row reserve reserve_new aggregate positive quantity_in lookup
    insert insert_by_id sort_by_id lock_rows insufficient_items reserve_checked new_reservation
    reserve_items reserve_item expire_stale_reservations stale_reservations is_stale
    insert_by_expiry expire_all settle settle_items settle_item settle_row
sweep_ok = refl

swept_found :
    lookup 100 swept_db.reservations ≡ some (record held_row { status = ReservationStatus.expired })
unfolding upsert_stock_item upsert_row reserve reserve_new aggregate positive quantity_in lookup
    insert insert_by_id sort_by_id lock_rows insufficient_items reserve_checked new_reservation
    reserve_items reserve_item expire_stale_reservations stale_reservations is_stale
    insert_by_expiry expire_all settle settle_items settle_item settle_row
swept_found = refl

expire_stale_reservations-none_left_example :
    is_stale 2000 nobody (record held_row { status = ReservationStatus.expired }) ≡ false
expire_stale_reservations-none_left_example =
    expire_stale_reservations-none_left 5 2000 nobody held_db 1 swept_db 100
      (record held_row { status = ReservationStatus.expired }) held_db-IsValid held_room sweep_ok
      (omega arith) swept_found
