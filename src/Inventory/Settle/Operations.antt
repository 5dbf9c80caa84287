-- ===== src/Inventory/Settle/Operations.antt =====
-- `commit_reservation` and `release_reservation` on every branch: they keep the invariant, restock a
-- committed order, and a second call changes nothing.
use inventory_management_sys.Prelude.{
  ◌≡◌, ◌≤◌, ◌+◌, refl, sym, subst, some, Option, lookup, Uuid, arith, inl, inr, Option-cases,
}
use inventory_management_sys.Common.Errors.{int_max, ok, Result-cases}
use inventory_management_sys.Common.Events.{LedgerReason}
use inventory_management_sys.Inventory.Models.{Reservation, ReservationStatus, Inventory}
use inventory_management_sys.Inventory.Quantities.{
  available_of, reserved_of, held_by, qty_of, counted,
}
use inventory_management_sys.Inventory.Invariant.{IsValid, own_row}
use inventory_management_sys.Inventory.Settle.{
  settle, some_of, commit_from, release_from, commit_reservation, release_reservation,
  restock_committed,
}
use inventory_management_sys.Inventory.Settle.Fits.{Fits}
use inventory_management_sys.Inventory.Settle.Keeps.{
  Balances, settle-Settled, settle-ok, held-Balances,
}
use inventory_management_sys.Inventory.Settle.Results.{Ended, settle-Ended}

-- A committed reservation holds nothing, before and after its units are restocked.
restock-Balances :
    (r : Reservation) (s : Inventory)
    → r.status ≡ ReservationStatus.committed
    → Balances LedgerReason.restock ReservationStatus.released r s
unfolding held_by
restock-Balances r s h j = ground arith

-- A call leaves the database alone, or ends the reservation that it found in one `settle`.
data Outcome (reason : LedgerReason) (status : ReservationStatus) (o : Uuid) (s : Inventory)
    (x : Option Reservation) (t : Inventory) : Type 0 where
  idle : t ≡ s → Outcome reason status o s x t
  ended :
      (r : Reservation)
      → lookup o s.reservations ≡ some r
      → x ≡ some (record r { status = status })
      → Ended reason status o r s t
      → Outcome reason status o s x t

settle-Outcome :
    (reason : LedgerReason) (status : ReservationStatus) (o : Uuid) (r : Reservation)
    (x : Option Reservation) (s t : Inventory)
    → IsValid s
    → lookup o s.reservations ≡ some r
    → Balances reason status r s
    → some_of (settle reason status r s) ≡ ok (x, t)
    → Outcome reason status o s x t
settle-Outcome reason status o r x s t v found bal e =
    elim (Result-cases (settle reason status r s)) [
      | inr (y, failed) ↦ absurd (ground arith)
      | inl ((r', u), done) ↦
          let same : u ≡ t = ground arith in
          let through : settle reason status r s ≡ ok (r', t) = ground arith in
          ended r found (ground (arith, (settle-Settled reason status r r' s t through).result))
            (settle-Ended reason status o r r' s t v found bal through)
    ]

commit_from-Outcome :
    (status : ReservationStatus) (o : Uuid) (r : Reservation) (x : Option Reservation)
    (s t : Inventory)
    → IsValid s
    → lookup o s.reservations ≡ some r
    → r.status ≡ status
    → commit_from status r s ≡ ok (x, t)
    → Outcome LedgerReason.commit ReservationStatus.committed o s x t
commit_from-Outcome ReservationStatus.held o r x s t v found h e =
    settle-Outcome LedgerReason.commit ReservationStatus.committed o r x s t v found
      (held-Balances LedgerReason.commit ReservationStatus.committed r s v (own_row o r v found) h
        refl (λ n. refl))
      e
commit_from-Outcome _ o r x s t v found h e = idle (ground arith)

commit_reservation-Outcome :
    (o : Uuid) (x : Option Reservation) (s t : Inventory)
    → IsValid s
    → commit_reservation o s ≡ ok (x, t)
    → Outcome LedgerReason.commit ReservationStatus.committed o s x t
unfolding commit_reservation
commit_reservation-Outcome o x s t v e = elim (Option-cases (lookup o s.reservations)) [
  | inl missing ↦ idle (ground arith)
  | inr (r, found) ↦ commit_from-Outcome r.status o r x s t v found refl (ground arith)
]

-- Releasing a held reservation, or restocking a committed one.
release_from-Outcome :
    (status : ReservationStatus) (o : Uuid) (r : Reservation) (x : Option Reservation)
    (s t : Inventory)
    → IsValid s
    → lookup o s.reservations ≡ some r
    → r.status ≡ status
    → release_from status r s ≡ ok (x, t)
    → (reason : LedgerReason) × Outcome reason ReservationStatus.released o s x t
unfolding restock_committed
release_from-Outcome ReservationStatus.held o r x s t v found h e = (
  LedgerReason.release,
  settle-Outcome LedgerReason.release ReservationStatus.released o r x s t v found
      (held-Balances LedgerReason.release ReservationStatus.released r s v (own_row o r v found) h
        refl (λ n. refl))
      e,
)
release_from-Outcome ReservationStatus.committed o r x s t v found h e = (
  LedgerReason.restock,
  settle-Outcome LedgerReason.restock ReservationStatus.released o r x s t v found
      (restock-Balances r s h) e,
)
release_from-Outcome _ o r x s t v found h e = (LedgerReason.release, idle (ground arith))

release_reservation-Outcome :
    (o : Uuid) (x : Option Reservation) (s t : Inventory)
    → IsValid s
    → release_reservation o s ≡ ok (x, t)
    → (reason : LedgerReason) × Outcome reason ReservationStatus.released o s x t
unfolding release_reservation
release_reservation-Outcome o x s t v e = elim (Option-cases (lookup o s.reservations)) [
  | inl missing ↦ (LedgerReason.release, idle (ground arith))
  | inr (r, found) ↦ release_from-Outcome r.status o r x s t v found refl (ground arith)
]

Outcome-IsValid :
    {reason : LedgerReason} {status : ReservationStatus} {o : Uuid} {s t : Inventory}
    {x : Option Reservation}
    → IsValid s
    → Outcome reason status o s x t
    → IsValid t
Outcome-IsValid v (idle same) = rw same v
Outcome-IsValid v (ended r found result e) = e.valid

pub commit_reservation-IsValid :
    (o : Uuid) (x : Option Reservation) (s t : Inventory)
    → IsValid s
    → commit_reservation o s ≡ ok (x, t)
    → IsValid t
commit_reservation-IsValid o x s t v e = Outcome-IsValid v (commit_reservation-Outcome o x s t v e)

pub release_reservation-IsValid :
    (o : Uuid) (x : Option Reservation) (s t : Inventory)
    → IsValid s
    → release_reservation o s ≡ ok (x, t)
    → IsValid t
release_reservation-IsValid o x s t v e =
    Outcome-IsValid v (release_reservation-Outcome o x s t v e).1

-- In a valid database, after a commit that returned, a second commit of the same order returns the
-- same reservation and changes nothing.
pub commit_reservation_twice :
    (o : Uuid) (x : Option Reservation) (s t : Inventory)
    → IsValid s
    → commit_reservation o s ≡ ok (x, t)
    → commit_reservation o t ≡ ok (x, t)
unfolding commit_reservation
commit_reservation_twice o x s t v e = go (commit_reservation-Outcome o x s t v e)
  where
    go :
        Outcome LedgerReason.commit ReservationStatus.committed o s x t
        → commit_reservation o t ≡ ok (x, t)
    go (idle same) = subst (λ u. commit_reservation o u ≡ ok (x, t)) (sym same) e
    go (ended r found result d) = ground (arith, d.stored)

-- In a valid database, after a release that returned, a second release of the same order returns
-- the same reservation and changes nothing.
pub release_reservation_twice :
    (o : Uuid) (x : Option Reservation) (s t : Inventory)
    → IsValid s
    → release_reservation o s ≡ ok (x, t)
    → release_reservation o t ≡ ok (x, t)
unfolding release_reservation
release_reservation_twice o x s t v e = go (release_reservation-Outcome o x s t v e).1
  where
    go :
        {reason : LedgerReason}
        → Outcome reason ReservationStatus.released o s x t
        → release_reservation o t ≡ ok (x, t)
    go (idle same) = subst (λ u. release_reservation o u ≡ ok (x, t)) (sym same) e
    go (ended r found result d) = ground (arith, d.stored)

-- In a valid database the release of a committed reservation restocks it: the units of each
-- product that has a row come back to available, as long as its column has room, reserved stays,
-- and the database stays valid.
pub release_reservation-committed :
    (o : Uuid) (s : Inventory) (r : Reservation)
    → IsValid s
    → lookup o s.reservations ≡ some r
    → r.status ≡ ReservationStatus.committed
    → ((j : Uuid) → available_of j s.stock + counted j s.stock (qty_of j r.items) ≤ int_max)
    → (t : Inventory) × (release_reservation o s
        ≡ ok (some (record r { status = ReservationStatus.released }), t))
      × IsValid t
      × (lookup o t.reservations ≡ some (record r { status = ReservationStatus.released }))
      × ((j : Uuid) → reserved_of j t.stock ≡ reserved_of j s.stock)
      × ((j : Uuid)
          → available_of j t.stock ≡ available_of j s.stock + counted j s.stock (qty_of j r.items))
unfolding release_reservation restock_committed
release_reservation-committed o s r v found h room =
    let fits : Fits LedgerReason.restock (λ j. qty_of j r.items) s.stock = record {
      enough = λ j. omega arith;
      in_column = v.reserved_fits;
      room = room;
    } in
    let (t, done) = settle-ok LedgerReason.restock ReservationStatus.released r s fits in
    let e =
      settle-Ended LedgerReason.restock ReservationStatus.released o r _ s t v found
        (restock-Balances r s h) done in
    (t, ground arith, e.valid, e.stored, λ j. omega (arith, e.reserved j), e.available)
