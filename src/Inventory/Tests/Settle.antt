-- ===== src/Inventory/Tests/Settle.antt =====
-- `commit_reservation` and `release_reservation` of services/inventory/app/services.py on an order of
-- three.
use inventory_management_sys.Prelude.{◌≡◌, ◌≤◌, ◌+◌, refl, some, Uuid, lookup, insert, arith}
use inventory_management_sys.Common.Errors.{ok, int_max}
use inventory_management_sys.Inventory.Models.{ReservationStatus, Inventory}
use inventory_management_sys.Inventory.Quantities.{available_of, reserved_of, qty_of, counted}
use inventory_management_sys.Inventory.Invariant.{IsValid}
use inventory_management_sys.Inventory.Settle.{
  settle_row, settle_item, settle_items, settle, commit_reservation, release_reservation,
}
use inventory_management_sys.Inventory.Settle.Results.{
  commit_reservation-held, release_reservation-held,
}
use inventory_management_sys.Inventory.Settle.Operations.{
  commit_reservation_twice, release_reservation_twice, release_reservation-committed,
}
use inventory_management_sys.Inventory.Reserve.{
  positive, quantity_in, aggregate, insert_by_id, sort_by_id, lock_rows, insufficient_items,
  reserve_item, reserve_items, new_reservation, reserve_checked, reserve_new, reserve,
}
use inventory_management_sys.Inventory.Consumer.{Message, handle}
use inventory_management_sys.Inventory.Admin.{upsert_row, upsert_stock_item}
use inventory_management_sys.Inventory.History.{handles, next, Reach-IsValid}
use inventory_management_sys.Inventory.Tests.{
  settings, paid, outside, after, held_db, held_row, committed_row, committed_db, held_db-Reach,
  held_db-IsValid, held_found,
}

commit_reservation-held_example :
    (t : Inventory) × (commit_reservation 100 held_db ≡ ok (some committed_row, t))
    × IsValid t
    × (lookup 100 t.reservations ≡ some committed_row)
    × ((j : Uuid) → reserved_of j t.stock + qty_of j held_row.items ≡ reserved_of j held_db.stock)
    × ((j : Uuid) → available_of j t.stock ≡ available_of j held_db.stock)
commit_reservation-held_example =
    commit_reservation-held 100 held_db held_row held_db-IsValid held_found refl

room_back : (j : Uuid) → available_of j held_db.stock + qty_of j held_row.items ≤ int_max
unfolding upsert_stock_item upsert_row reserve reserve_new aggregate positive quantity_in lookup
    insert insert_by_id sort_by_id lock_rows insufficient_items reserve_checked new_reservation
    reserve_items reserve_item available_of qty_of
room_back j = ground arith

release_reservation-held_example :
    (t : Inventory) × (release_reservation 100 held_db
      ≡ ok (some (record held_row { status = ReservationStatus.released }), t))
    × IsValid t
    × (lookup 100 t.reservations ≡ some (record held_row { status = ReservationStatus.released }))
    × ((j : Uuid) → reserved_of j t.stock + qty_of j held_row.items ≡ reserved_of j held_db.stock)
    × ((j : Uuid) → available_of j t.stock ≡ available_of j held_db.stock + qty_of j held_row.items)
release_reservation-held_example =
    release_reservation-held 100 held_db held_row held_db-IsValid held_found refl room_back

commit_ok : commit_reservation 100 held_db ≡ ok (some committed_row, committed_db)
unfolding upsert_stock_item upsert_row reserve reserve_new aggregate positive quantity_in lookup
    insert insert_by_id sort_by_id lock_rows insufficient_items reserve_checked new_reservation
    reserve_items reserve_item commit_reservation settle settle_items settle_item settle_row
commit_ok = refl

paid_ok : handle settings outside (Message.payment_succeeded paid) held_db ≡ ok committed_db
unfolding upsert_stock_item upsert_row reserve reserve_new aggregate positive quantity_in lookup
    insert insert_by_id sort_by_id lock_rows insufficient_items reserve_checked new_reservation
    reserve_items reserve_item commit_reservation settle settle_items settle_item settle_row handle
paid_ok = refl

committed_db-IsValid : IsValid committed_db
committed_db-IsValid =
    Reach-IsValid (next held_db-Reach (handles outside (Message.payment_succeeded paid) paid_ok))

committed_found : lookup 100 committed_db.reservations ≡ some committed_row
unfolding upsert_stock_item upsert_row reserve reserve_new aggregate positive quantity_in lookup
    insert insert_by_id sort_by_id lock_rows insufficient_items reserve_checked new_reservation
    reserve_items reserve_item commit_reservation settle settle_items settle_item settle_row
committed_found = refl

room_again :
    (j : Uuid)
    → available_of j committed_db.stock
        + counted j committed_db.stock (qty_of j committed_row.items)
      ≤ int_max
unfolding upsert_stock_item upsert_row reserve reserve_new aggregate positive quantity_in lookup
    insert insert_by_id sort_by_id lock_rows insufficient_items reserve_checked new_reservation
    reserve_items reserve_item commit_reservation settle settle_items settle_item settle_row
    available_of qty_of counted
room_again j = ground arith

release_reservation-committed_example :
    (t : Inventory) × (release_reservation 100 committed_db
      ≡ ok (some (record held_row { status = ReservationStatus.released }), t))
    × IsValid t
    × (lookup 100 t.reservations ≡ some (record held_row { status = ReservationStatus.released }))
    × ((j : Uuid) → reserved_of j t.stock ≡ reserved_of j committed_db.stock)
    × ((j : Uuid)
        → available_of j t.stock
          ≡ available_of j committed_db.stock
            + counted j committed_db.stock (qty_of j committed_row.items))
release_reservation-committed_example =
    release_reservation-committed 100 committed_db committed_row committed_db-IsValid
      committed_found refl room_again

commit_reservation_twice_example :
    commit_reservation 100 committed_db ≡ ok (some committed_row, committed_db)
commit_reservation_twice_example =
    commit_reservation_twice 100 (some committed_row) held_db committed_db held_db-IsValid commit_ok

release_ok :
    release_reservation 100 held_db
    ≡ ok (
      some (record held_row { status = ReservationStatus.released }),
      after (release_reservation 100 held_db),
    )
unfolding upsert_stock_item upsert_row reserve reserve_new aggregate positive quantity_in lookup
    insert insert_by_id sort_by_id lock_rows insufficient_items reserve_checked new_reservation
    reserve_items reserve_item release_reservation settle settle_items settle_item settle_row
release_ok = refl

release_reservation_twice_example :
    release_reservation 100 (after (release_reservation 100 held_db))
    ≡ ok (
      some (record held_row { status = ReservationStatus.released }),
      after (release_reservation 100 held_db),
    )
release_reservation_twice_example =
    release_reservation_twice 100 (some (record held_row { status = ReservationStatus.released }))
      held_db (after (release_reservation 100 held_db)) held_db-IsValid release_ok
