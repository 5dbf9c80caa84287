-- ===== src/Inventory/Reserve/Held.antt =====
-- What a reservation that `reserve` of services/inventory/app/services.py makes has moved.
use inventory_management_sys.Prelude.{
  ◌+◌, ◌≡◌, ◌≤◌, sym, subst, none, some, lookup, insert, Uuid, insert-Distinct, arith,
}
use inventory_management_sys.Common.Errors.{int_max}
use inventory_management_sys.Inventory.Models.{Inventory, Reservation, ReservationStatus}
use inventory_management_sys.Inventory.Quantities.{
  available_of, reserved_of, held_by, qty_of, held_of-insert_new,
}
use inventory_management_sys.Inventory.Invariant.{IsValid, Audited, keyed-insert}
use inventory_management_sys.Inventory.Reserve.{ReserveRequest}
use inventory_management_sys.Inventory.Reserve.Lines.{line_qty}

-- What a reservation for the request has moved, and where it stands.
pub record Held (request : ReserveRequest) (r : Reservation) (s t : Inventory) : Type 0 where
  pub is_held : r.status ≡ ReservationStatus.held
  pub own : r.order_id ≡ request.order_id
  pub exact : (j : Uuid) → qty_of j r.items ≡ line_qty j request.items
  pub table : t.reservations ≡ insert request.order_id r s.reservations
  pub available :
      (j : Uuid) → available_of j t.stock + line_qty j request.items ≡ available_of j s.stock
  pub reserved :
      (j : Uuid) → reserved_of j t.stock ≡ reserved_of j s.stock + line_qty j request.items

held_by_held :
    (j : Uuid) (r : Reservation)
    → r.status ≡ ReservationStatus.held
    → held_by j r ≡ qty_of j r.items
unfolding held_by
held_by_held j r h = ground arith

-- A new hold keeps the invariant.
pub Held-IsValid :
    (request : ReserveRequest) (r : Reservation) (s t : Inventory)
    → Held request r s t
    → IsValid s
    → lookup request.order_id s.reservations ≡ none
    → ((j : Uuid) → reserved_of j t.stock ≤ int_max)
    → Audited t.stock t.ledger
    → IsValid t
Held-IsValid request r s t d v fresh range audited = record {
  available_fits = λ j. omega (arith, d.available j, v.available_fits j);
  reserved_fits = range;
  reserved_held = λ j. rw d.table (
      omega (
        arith,
        d.reserved j,
        v.reserved_held j,
        d.exact j,
        held_by_held j r d.is_held,
        held_of-insert_new j request.order_id r s.reservations fresh,
      ));
  keyed = λ k x found. keyed-insert r s.reservations v.keyed k x (
      subst (λ i. lookup k (insert i r s.reservations) ≡ some x) (sym d.own)
        (subst (λ y. lookup k y ≡ some x) d.table found));
  distinct = rw d.table (insert-Distinct request.order_id r s.reservations v.distinct);
  audited = audited;
}

-- The invariant and a hold speak of the tables alone.
pub IsValid-same :
    (s l : Inventory)
    → l.stock ≡ s.stock
    → l.reservations ≡ s.reservations
    → l.ledger ≡ s.ledger
    → IsValid s
    → IsValid l
IsValid-same s l a b c v = record {
  available_fits = rw a v.available_fits;
  reserved_fits = rw a v.reserved_fits;
  reserved_held = rw (a, b) v.reserved_held;
  keyed = rw b v.keyed;
  distinct = rw b v.distinct;
  audited = rw (a, c) v.audited;
}

pub Held-same :
    (request : ReserveRequest) (r : Reservation) (s l t : Inventory)
    → l.stock ≡ s.stock
    → l.reservations ≡ s.reservations
    → Held request r l t
    → Held request r s t
Held-same request r s l t a b h = record {
  is_held = h.is_held;
  own = h.own;
  exact = h.exact;
  table = rw b at h.table;
  available = rw a at h.available;
  reserved = rw a at h.reserved;
}
