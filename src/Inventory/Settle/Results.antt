-- ===== src/Inventory/Settle/Results.antt =====
-- What `commit_reservation` and `release_reservation` return and do, for each status.
use inventory_management_sys.Prelude.{
  ◌≡◌, ◌≤◌, ◌+◌, refl, some, lookup, lookup-insert_self, Uuid, arith, subst,
}
use inventory_management_sys.Common.Errors.{int_max, ok}
use inventory_management_sys.Common.Events.{LedgerReason}
use inventory_management_sys.Inventory.Models.{Reservation, ReservationStatus, Inventory}
use inventory_management_sys.Inventory.Quantities.{
  available_of, reserved_of, qty_of, drawn, returned, counted,
}
use inventory_management_sys.Inventory.Invariant.{IsValid, own_row}
use inventory_management_sys.Inventory.Settle.{settle, commit_reservation, release_reservation}
use inventory_management_sys.Inventory.Settle.Keeps.{
  Balances, settle-Settled, settle-IsValid, settle-ok, counted-held, held-Balances, held-Fits,
}

-- A successful `settle` of a stored reservation, seen by its order and product.
pub record Ended (reason : LedgerReason) (status : ReservationStatus) (o : Uuid) (r : Reservation)
    (s t : Inventory) : Type 0 where
  pub valid : IsValid t
  pub stored : lookup o t.reservations ≡ some (record r { status = status })
  pub reserved :
      (j : Uuid)
      → reserved_of j t.stock + drawn reason (counted j s.stock (qty_of j r.items))
        ≡ reserved_of j s.stock
  pub available :
      (j : Uuid)
      → available_of j t.stock
        ≡ available_of j s.stock + returned reason (counted j s.stock (qty_of j r.items))

pub settle-Ended :
    (reason : LedgerReason) (status : ReservationStatus) (o : Uuid) (r r' : Reservation)
    (s t : Inventory)
    → IsValid s
    → lookup o s.reservations ≡ some r
    → Balances reason status r s
    → settle reason status r s ≡ ok (r', t)
    → Ended reason status o r s t
settle-Ended reason status o r r' s t v found bal e =
    let own : r.order_id ≡ o = v.keyed o r found in
    let d = settle-Settled reason status r r' s t e in
    record {
      valid = settle-IsValid reason status r r' s t v (own_row o r v found) bal e;
      stored =
          subst (λ k. lookup k t.reservations ≡ some (record r { status = status })) own
            (rw d.table
              (lookup-insert_self r.order_id (record r { status = status }) s.reservations));
      reserved = d.moved.reserved;
      available = d.moved.available;
    }

module _ (o : Uuid) (s : Inventory) (r : Reservation) (v : IsValid s)
    (found : lookup o s.reservations ≡ some r) where
  -- In a valid database a held reservation is committed without fail: its units leave reserved for
  -- good, available stays, and the database stays valid.
  pub commit_reservation-held :
      r.status ≡ ReservationStatus.held
      → (t : Inventory) × (commit_reservation o s
          ≡ ok (some (record r { status = ReservationStatus.committed }), t))
        × IsValid t
        × (lookup o t.reservations ≡ some (record r { status = ReservationStatus.committed }))
        × ((j : Uuid) → reserved_of j t.stock + qty_of j r.items ≡ reserved_of j s.stock)
        × ((j : Uuid) → available_of j t.stock ≡ available_of j s.stock)
  unfolding commit_reservation
  commit_reservation-held h =
      let own : lookup r.order_id s.reservations ≡ some r = own_row o r v found in
      let bal =
        held-Balances LedgerReason.commit ReservationStatus.committed r s v own h refl
          (λ n. refl) in
      let (t, done) = settle-ok LedgerReason.commit ReservationStatus.committed r s (
        held-Fits LedgerReason.commit r s v own h (λ n. refl)
          (λ j. omega (arith, v.available_fits j))) in
      let e =
        settle-Ended LedgerReason.commit ReservationStatus.committed o r _ s t v found bal done in
      (
        t,
        ground arith,
        e.valid,
        e.stored,
        λ j. rw (counted-held r s v own h j) at (e.reserved j),
        λ j. omega (arith, e.available j),
      )

  -- In a valid database a held reservation is released without fail as long as the shelf's column
  -- has room: its units go from reserved back to available, and the database stays valid.
  pub release_reservation-held :
      r.status ≡ ReservationStatus.held
      → ((j : Uuid) → available_of j s.stock + qty_of j r.items ≤ int_max)
      → (t : Inventory) × (release_reservation o s
          ≡ ok (some (record r { status = ReservationStatus.released }), t))
        × IsValid t
        × (lookup o t.reservations ≡ some (record r { status = ReservationStatus.released }))
        × ((j : Uuid) → reserved_of j t.stock + qty_of j r.items ≡ reserved_of j s.stock)
        × ((j : Uuid) → available_of j t.stock ≡ available_of j s.stock + qty_of j r.items)
  unfolding release_reservation
  release_reservation-held h room =
      let own : lookup r.order_id s.reservations ≡ some r = own_row o r v found in
      let bal =
        held-Balances LedgerReason.release ReservationStatus.released r s v own h refl
          (λ n. refl) in
      let (t, done) =
        settle-ok LedgerReason.release ReservationStatus.released r s
          (held-Fits LedgerReason.release r s v own h (λ n. refl) room) in
      let e =
        settle-Ended LedgerReason.release ReservationStatus.released o r _ s t v found bal done in
      (
        t,
        ground arith,
        e.valid,
        e.stored,
        λ j. rw (counted-held r s v own h j) at (e.reserved j),
        λ j. rw (counted-held r s v own h j) at (e.available j),
      )
