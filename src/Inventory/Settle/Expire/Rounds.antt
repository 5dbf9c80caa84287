-- ===== src/Inventory/Settle/Expire/Rounds.antt =====
-- The outer loop of `expire_stale_reservations`: one reservation is ended in each round.
use inventory_management_sys.Prelude.{
  ◌≡◌, ◌≢◌, ◌+◌, refl, sym, subst, ◌∙◌, List, [], ◌∷◌, some, true, false, Bool, ◌⊎◌, inl, inr, All,
  Dict, lookup, lookup-insert_ne, lookup-insert_self, ◌==◌, ==_iff, Uuid, Datetime, arith,
  Bool-cases,
}
use inventory_management_sys.Common.Errors.{ok, Result-cases}
use inventory_management_sys.Common.Events.{LedgerReason}
use inventory_management_sys.Inventory.Models.{Reservation, ReservationStatus, Inventory}
use inventory_management_sys.Inventory.Quantities.{available_of, reserved_of, held_by, held_by-le}
use inventory_management_sys.Inventory.Invariant.{IsValid, HasRoom}
use inventory_management_sys.Inventory.Settle.{settle, is_stale, stale_reservations, expire_all}
use inventory_management_sys.Inventory.Settle.Keeps.{
  settle-Settled, settle-ok, settle-IsValid, held-Balances, held-Fits,
}
use inventory_management_sys.Inventory.Settle.Expire.Query.{
  IsStaleIn, Apart, All-zip, stale-held, stale_reservations_complete,
}

-- What the sweeper leaves of one order's reservation: itself, or a stale hold that is now EXPIRED.
abbrev pub Sweeps : Datetime → (Uuid → Bool) → Dict Reservation → Dict Reservation → Uuid → Type 0
Sweeps now elsewhere d d' o =
    (lookup o d' ≡ lookup o d)
    ⊎ ((r : Reservation) × (lookup o d ≡ some r)
        × (is_stale now elsewhere r ≡ true)
        × (lookup o d' ≡ some (record r { status = ReservationStatus.expired })))

abbrev pub IsEndedIn : Dict Reservation → Reservation → Type 0
IsEndedIn d r = lookup r.order_id d ≡ some (record r { status = ReservationStatus.expired })

-- After any number of rounds: valid, each product's units kept, each order swept or left alone.
pub record Swept (now : Datetime) (elsewhere : Uuid → Bool) (rs : List Reservation)
    (s t : Inventory) : Type 0 where
  pub valid : IsValid t
  pub kept :
      (j : Uuid)
      → available_of j t.stock + reserved_of j t.stock
        ≡ available_of j s.stock + reserved_of j s.stock
  pub swept : (o : Uuid) → Sweeps now elsewhere s.reservations t.reservations o
  pub ended : All (IsEndedIn t.reservations) rs

-- One round of the sweeper's outer loop.
record Round (r : Reservation) (s t : Inventory) : Type 0 where
  valid : IsValid t
  kept :
      (j : Uuid)
      → available_of j t.stock + reserved_of j t.stock
        ≡ available_of j s.stock + reserved_of j s.stock
  ended : lookup r.order_id t.reservations ≡ some (record r { status = ReservationStatus.expired })
  others : (o : Uuid) → o ≢ r.order_id → lookup o t.reservations ≡ lookup o s.reservations

settle-Round :
    (r : Reservation) (s : Inventory)
    → IsValid s
    → HasRoom s
    → lookup r.order_id s.reservations ≡ some r
    → r.status ≡ ReservationStatus.held
    → (t : Inventory) × (settle LedgerReason.expire ReservationStatus.expired r s
        ≡ ok (record r { status = ReservationStatus.expired }, t))
      × Round r s t
unfolding held_by
settle-Round r s v room found h =
    let done : Reservation = record r { status = ReservationStatus.expired } in
    let bal =
      held-Balances LedgerReason.expire ReservationStatus.expired r s v found h refl (λ n. refl) in
    let (t, e) = settle-ok LedgerReason.expire ReservationStatus.expired r s (
      held-Fits LedgerReason.expire r s v found h (λ n. refl)
        (λ j. ground (
          arith,
          room j,
          v.reserved_held j,
          held_by-le j r.order_id s.reservations {r = r} found,
        ))) in
    let d = settle-Settled LedgerReason.expire ReservationStatus.expired r done s t e in
    (
      t,
      e,
      record {
        valid =
            settle-IsValid LedgerReason.expire ReservationStatus.expired r done s t v found bal e;
        kept = λ j. omega (arith, d.moved.reserved j, d.moved.available j);
        ended = rw d.table (lookup-insert_self r.order_id done s.reservations);
        others = λ o ne. rw d.table (lookup-insert_ne o r.order_id done s.reservations ne);
      },
    )

-- The order that a round has swept is not stale for the later ones.
Sweeps-Round :
    (now : Datetime) (elsewhere : Uuid → Bool) (r : Reservation) (s t u : Inventory)
    → lookup r.order_id s.reservations ≡ some r
    → is_stale now elsewhere r ≡ true
    → Round r s t
    → Sweeps now elsewhere t.reservations u.reservations r.order_id
    → Sweeps now elsewhere s.reservations u.reservations r.order_id
Sweeps-Round now elsewhere r s t u found stale w (inl same) = inr (r, found, stale, same ∙ w.ended)
Sweeps-Round now elsewhere r s t u found stale w (inr (x, found', stale', _)) =
    absurd (ground (arith, w.ended, stale-held now elsewhere x stale'))

-- A round and what the later rounds leave.
Sweeps-trans :
    (now : Datetime) (elsewhere : Uuid → Bool) (r : Reservation) (s t u : Inventory) (o : Uuid)
    → IsStaleIn now elsewhere s.reservations r
    → Round r s t
    → Sweeps now elsewhere t.reservations u.reservations o
    → Sweeps now elsewhere s.reservations u.reservations o
Sweeps-trans now elsewhere r s t u o (found, stale) w rest = elim (Bool-cases (o == r.order_id)) [
  | inl eq ↦
      subst (λ k. Sweeps now elsewhere s.reservations u.reservations k)
        (sym ((==_iff o r.order_id).0 eq))
        (Sweeps-Round now elsewhere r s t u found stale w (
          subst (λ k. Sweeps now elsewhere t.reservations u.reservations k)
            ((==_iff o r.order_id).0 eq) rest))
  | inr ne ↦ let apart : o ≢ r.order_id = λ e. ground arith in rw (← w.others o apart) rest
]

-- Later rounds leave alone what a round has ended.
ended_stays :
    (now : Datetime) (elsewhere : Uuid → Bool) (r : Reservation) (s t u : Inventory)
    → Round r s t
    → Sweeps now elsewhere t.reservations u.reservations r.order_id
    → IsEndedIn u.reservations r
ended_stays now elsewhere r s t u w (inl same) = same ∙ w.ended
ended_stays now elsewhere r s t u w (inr (x, found, stale, _)) =
    absurd (ground (arith, w.ended, stale-held now elsewhere x stale))

pub expire_all-Swept :
    (now : Datetime) (elsewhere : Uuid → Bool) (rs : List Reservation) (s : Inventory)
    → IsValid s
    → HasRoom s
    → All (IsStaleIn now elsewhere s.reservations) rs
    → Apart rs
    → (t : Inventory) × (expire_all rs s ≡ ok t) × Swept now elsewhere rs s t
unfolding expire_all
expire_all-Swept now elsewhere [] s v room hs apart =
    (s, refl, record { valid = v; kept = λ j. refl; swept = λ o. inl refl; ended = tt })
expire_all-Swept now elsewhere (r ∷ rs) s v room ((found, stale), hs) (others, apart) =
    let (t, e, w) = settle-Round r s v room found (stale-held now elsewhere r stale).0 in
    let still : All (IsStaleIn now elsewhere t.reservations) rs =
      All-zip rs (λ x ne p. (w.others x.order_id ne ∙ p.0, p.1)) others hs in
    let (u, rest, d) =
      expire_all-Swept now elsewhere rs t w.valid (λ j. omega (arith, w.kept j, room j)) still
        apart in
    (
      u,
      rw e rest,
      record {
        valid = d.valid;
        kept = λ j. d.kept j ∙ w.kept j;
        swept = λ o. Sweeps-trans now elsewhere r s t u o (found, stale) w (d.swept o);
        ended = (ended_stays now elsewhere r s t u w (d.swept r.order_id), d.ended);
      },
    )

-- What the sweeper has ended, and what it has left, is no longer stale.
pub none_left :
    (now : Datetime) (elsewhere : Uuid → Bool) (s t : Inventory)
    → IsValid s
    → ((o : Uuid) → Sweeps now elsewhere s.reservations t.reservations o)
    → All (IsEndedIn t.reservations) (stale_reservations now elsewhere s.reservations)
    → (o : Uuid) (x : Reservation) → lookup o t.reservations ≡ some x
    → is_stale now elsewhere x ≡ false
none_left now elsewhere s t v swept ended o x found = elim (Bool-cases (is_stale now elsewhere x)) [
  | inr fine ↦ fine
  | inl stale ↦ elim (swept o) [
    | inr (r, old, was, new) ↦ absurd (ground (arith, stale-held now elsewhere x stale))
    | inl same ↦
        let before : lookup o s.reservations ≡ some x = sym same ∙ found in
        let gone =
          stale_reservations_complete (IsEndedIn t.reservations) now elsewhere s.reservations o x
            ended before stale in
        let here : lookup o t.reservations
            ≡ some (record x { status = ReservationStatus.expired }) =
          subst
            (λ k. lookup k t.reservations ≡ some (record x { status = ReservationStatus.expired }))
            (v.keyed o x before) gone in
        absurd (ground (arith, stale-held now elsewhere x stale))
  ]
]

pub expire_all-IsValid :
    (now : Datetime) (elsewhere : Uuid → Bool) (rs : List Reservation) (s t : Inventory)
    → IsValid s
    → All (IsStaleIn now elsewhere s.reservations) rs
    → Apart rs
    → expire_all rs s ≡ ok t
    → IsValid t
unfolding expire_all
expire_all-IsValid now elsewhere [] s t v hs apart e =
    let same : s ≡ t = ground arith in rw (← same) v
expire_all-IsValid now elsewhere (r ∷ rs) s t v ((found, stale), hs) (others, apart) e =
    elim (Result-cases (settle LedgerReason.expire ReservationStatus.expired r s)) [
      | inr (x, failed) ↦ absurd (ground arith)
      | inl ((r', u), first) ↦
          let d = settle-Settled LedgerReason.expire ReservationStatus.expired r r' s u first in
          let bal =
            held-Balances LedgerReason.expire ReservationStatus.expired r s v found
              (stale-held now elsewhere r stale).0 refl (λ n. refl) in
          let done : Reservation = record r { status = ReservationStatus.expired } in
          expire_all-IsValid now elsewhere rs u t
            (settle-IsValid LedgerReason.expire ReservationStatus.expired r r' s u v found bal
              first)
            (All-zip rs
              (λ x ne p. (
                rw d.table (lookup-insert_ne x.order_id r.order_id done s.reservations ne) ∙ p.0,
                p.1,
              ))
              others hs)
            apart (ground arith)
    ]
