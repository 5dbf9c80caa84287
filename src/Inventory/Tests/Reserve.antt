-- ===== src/Inventory/Tests/Reserve.antt =====
-- `reserve` of services/inventory/app/services.py on a shelf of ten: enough, too few, a line of none,
-- and a second delivery.
use inventory_management_sys.Prelude.{
  ◌≡◌, ◌≤◌, ◌<◌, refl, List, [], ◌∷◌, none, some, pos, Uuid, lookup, insert, arith,
}
use inventory_management_sys.Common.Errors.{Error, ok, err, column}
use inventory_management_sys.Common.Events.{Topic, Payload, InsufficientItem}
use inventory_management_sys.Common.Outbox.{enqueue_event}
use inventory_management_sys.Inventory.Models.{Reservation, Inventory}
use inventory_management_sys.Inventory.Quantities.{available_of, reserved_of}
use inventory_management_sys.Inventory.Invariant.{IsValid, HasRoom}
use inventory_management_sys.Inventory.Records.{lock}
use inventory_management_sys.Inventory.Reserve.{ReserveRequest, reserve}
use inventory_management_sys.Inventory.Reserve.Lines.{line_qty}
use inventory_management_sys.Inventory.Reserve.Held.{Held}
use inventory_management_sys.Inventory.Reserve.Results.{reserve_enough}
use inventory_management_sys.Inventory.Reserve.Refusals.{
  reserve_short, reserve_not_positive, reserve-Held, reserve_twice,
}
use inventory_management_sys.Inventory.Admin.{upsert_row, upsert_stock_item}
use inventory_management_sys.Inventory.Tests.{
  settings, order_of, request, outside, stocked, held_db, held_row, reserve_ok, stocked-IsValid,
}

stocked_room : HasRoom stocked
unfolding upsert_stock_item upsert_row column lookup insert lock available_of reserved_of
stocked_room j = ground arith

enough : (j : Uuid) → line_qty j request.items ≤ available_of j stocked.stock
unfolding upsert_stock_item upsert_row column lookup insert lock available_of line_qty
enough j = ground arith

reserve_enough_example :
    (r : Reservation) × (t : Inventory) × (reserve settings outside request stocked
      ≡ ok (some r, t))
    × IsValid t
    × Held request r stocked t
unfolding upsert_stock_item upsert_row column lookup
reserve_enough_example =
    reserve_enough settings outside request stocked (λ e. absurd (cc)) refl stocked-IsValid
      stocked_room refl (refl, (refl, tt)) enough

-- Eleven are more than there are.
abbrev too_many : ReserveRequest
too_many = order_of ((1, pos 4) ∷ (1, pos 7) ∷ [])

too_few : available_of 1 stocked.stock < line_qty 1 too_many.items
unfolding upsert_stock_item upsert_row column lookup insert lock available_of line_qty
too_few = omega arith

reserve_short_example :
    (t : Inventory) × (short : InsufficientItem) × (shorts : List InsufficientItem) × (reserve
        settings outside too_many stocked
      ≡ ok (none, t))
    × (t.stock ≡ stocked.stock)
    × (t.reservations ≡ stocked.reservations)
    × (t.ledger ≡ stocked.ledger)
    × (t.outbox
        ≡ enqueue_event Topic.inventory_reservation_failed 100
            (Payload.reservation_failed (record {
              order_id = 100;
              user_id = 7;
              reason = "insufficient stock";
              insufficient_items = short ∷ shorts;
            }))
            100
            stocked.outbox)
unfolding upsert_stock_item upsert_row column lookup
reserve_short_example =
    reserve_short settings outside too_many stocked (λ e. absurd (cc)) refl (refl, (refl, tt)) 1
      too_few

reserve_not_positive_example :
    reserve settings outside (order_of ((1, pos 2) ∷ (1, pos 0) ∷ [])) stocked
    ≡ err Error.validation
unfolding upsert_stock_item upsert_row column lookup
reserve_not_positive_example =
    reserve_not_positive settings outside (order_of ((1, pos 2) ∷ (1, pos 0) ∷ [])) stocked
      (λ e. absurd (cc)) refl (λ h. absurd (ground arith))

reserve-Held_example :
    (lookup 100 stocked.reservations ≡ none) × Held request held_row stocked held_db
reserve-Held_example = reserve-Held settings outside request held_row stocked held_db reserve_ok

reserve_twice_example : reserve settings outside request held_db ≡ ok (none, held_db)
reserve_twice_example =
    reserve_twice settings settings outside outside request request held_row stocked held_db
      reserve_ok refl (λ e. absurd (cc))
