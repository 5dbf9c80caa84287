-- ===== src/Inventory/Settle/Expire.antt =====
-- `expire_stale_reservations` of services/inventory/app/services.py as a whole.
pub mod Query
pub mod Rounds
use inventory_management_sys.Prelude.{
  ℕ, zero, suc, ◌≡◌, ◌≢◌, ◌≤◌, ◌<◌, ◌+◌, refl, sym, subst, ◌∙◌, ap, List, [], ◌∷◌, none, some, true,
  false, Bool, ◌⊎◌, inl, inr, All, take, length, length-take-le, Dict, Distinct, lookup,
  lookup-insert_ne, lookup-insert_self, ◌==◌, ==_iff, Uuid, Datetime, arith, Bool-cases, leb,
}
use inventory_management_sys.Common.Errors.{int_max, ok, Result-cases}
use inventory_management_sys.Common.Events.{LedgerReason}
use inventory_management_sys.Inventory.Models.{Reservation, ReservationStatus, Inventory}
use inventory_management_sys.Inventory.Quantities.{available_of, reserved_of, held_by, held_by-le}
use inventory_management_sys.Inventory.Invariant.{IsValid, HasRoom}
use inventory_management_sys.Inventory.Settle.{
  settle, is_stale, insert_by_expiry, stale_reservations, expire_all, expire_stale_reservations,
}
use inventory_management_sys.Inventory.Settle.Keeps.{
  settle-Settled, settle-ok, settle-IsValid, held-Balances, held-Fits,
}
use inventory_management_sys.Inventory.Settle.Expire.Query.{
  IsStaleIn, Apart, All-zip, All-take, Apart-take, stale_reservations_lem, stale-held,
  stale_reservations_complete, take_all,
}
use inventory_management_sys.Inventory.Settle.Expire.Rounds.{
  Sweeps, IsEndedIn, Swept, expire_all-Swept, none_left, expire_all-IsValid,
}

-- The sweep together with what it selected.
expire_stale_reservations-swept :
    (limit : ℕ) (now : Datetime) (elsewhere : Uuid → Bool) (s : Inventory)
    → IsValid s
    → HasRoom s
    → (n : ℕ) × (t : Inventory) × (expire_stale_reservations limit now elsewhere s ≡ ok (n, t))
      × (n ≤ limit)
      × IsValid t
      × ((j : Uuid)
          → available_of j t.stock + reserved_of j t.stock
            ≡ available_of j s.stock + reserved_of j s.stock)
      × ((o : Uuid) → Sweeps now elsewhere s.reservations t.reservations o)
      × (n < limit
          → (o : Uuid) (x : Reservation) → lookup o t.reservations ≡ some x
          → is_stale now elsewhere x ≡ false)
unfolding expire_stale_reservations
expire_stale_reservations-swept limit now elsewhere s v room =
    let rows = stale_reservations now elsewhere s.reservations in
    let (all, apart) = stale_reservations_lem now elsewhere s.reservations v.distinct v.keyed in
    let (t, e, d) =
      expire_all-Swept now elsewhere (take limit rows) s v room
        (All-take (IsStaleIn now elsewhere s.reservations) limit rows all)
        (Apart-take limit rows apart) in
    (
      length (take limit rows),
      t,
      rw e,
      length-take-le limit rows,
      d.valid,
      d.kept,
      d.swept,
      λ few.
          none_left now elsewhere s t v d.swept
            (subst (All (IsEndedIn t.reservations)) (take_all limit rows few) d.ended),
    )

-- The sweeper never fails on a valid database whose shelves have room for all that is reserved. It
-- counts at most `limit` reservations, keeps the invariant and each product's units, and leaves
-- every order's reservation as it is or turns a stale hold to EXPIRED.
pub expire_stale_reservations_lem :
    (limit : ℕ) (now : Datetime) (elsewhere : Uuid → Bool) (s : Inventory)
    → IsValid s
    → HasRoom s
    → (n : ℕ) × (t : Inventory) × (expire_stale_reservations limit now elsewhere s ≡ ok (n, t))
      × (n ≤ limit)
      × IsValid t
      × ((j : Uuid)
          → available_of j t.stock + reserved_of j t.stock
            ≡ available_of j s.stock + reserved_of j s.stock)
      × ((o : Uuid) → Sweeps now elsewhere s.reservations t.reservations o)
expire_stale_reservations_lem limit now elsewhere s v room =
    let (n, t, e, most, valid, kept, swept, _) =
      expire_stale_reservations-swept limit now elsewhere s v room in
    (n, t, e, most, valid, kept, swept)

-- A sweep of a valid database whose shelves have room for all that is reserved, if it counts fewer
-- than `limit` reservations, leaves no stale hold among the rows that no other transaction has
-- locked.
pub expire_stale_reservations-none_left :
    (limit : ℕ) (now : Datetime) (elsewhere : Uuid → Bool) (s : Inventory) (n : ℕ) (t : Inventory)
    (o : Uuid) (x : Reservation)
    → IsValid s
    → HasRoom s
    → expire_stale_reservations limit now elsewhere s ≡ ok (n, t)
    → n < limit
    → lookup o t.reservations ≡ some x
    → is_stale now elsewhere x ≡ false
expire_stale_reservations-none_left limit now elsewhere s n t o x v room e few found =
    let (m, u, e', most, valid, kept, swept, clean) =
      expire_stale_reservations-swept limit now elsewhere s v room in
    let same : (m ≡ n) × (u ≡ t) = (ground arith, ground arith) in
    clean (rw same.0 few) o x (rw same.1 found)

-- A sweep that commits, whether or not the shelves have room, keeps the invariant.
pub expire_stale_reservations-IsValid :
    (limit : ℕ) (now : Datetime) (elsewhere : Uuid → Bool) (n : ℕ) (s t : Inventory)
    → IsValid s
    → expire_stale_reservations limit now elsewhere s ≡ ok (n, t)
    → IsValid t
unfolding expire_stale_reservations
expire_stale_reservations-IsValid limit now elsewhere n s t v e =
    let rows = stale_reservations now elsewhere s.reservations in
    let (all, apart) = stale_reservations_lem now elsewhere s.reservations v.distinct v.keyed in
    elim (Result-cases (expire_all (take limit rows) s)) [
      | inr (x, failed) ↦ absurd (ground arith)
      | inl (u, swept) ↦
          let same : u ≡ t = ground arith in
          rw (← same) (
            expire_all-IsValid now elsewhere (take limit rows) s u v
              (All-take (IsStaleIn now elsewhere s.reservations) limit rows all)
              (Apart-take limit rows apart) swept)
    ]
