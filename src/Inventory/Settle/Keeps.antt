-- ===== src/Inventory/Settle/Keeps.antt =====
-- The operations that end a reservation keep the invariant.
use inventory_management_sys.Prelude.{
  ℕ, ◌≡◌, ◌≤◌, ◌+◌, refl, sym, ap, List, [], ◌∷◌, some, false, pos, ◌+ℤ◌, lookup, insert,
  insert-Distinct, Uuid, arith, inl, inr,
}
use inventory_management_sys.Common.Errors.{int_max, ok, Result-cases}
use inventory_management_sys.Common.Events.{LedgerReason}
use inventory_management_sys.Inventory.Models.{StockItem, Reservation, ReservationStatus, Inventory}
use inventory_management_sys.Inventory.Quantities.{
  available_of, reserved_of, held_by, qty_of, drawn, returned, counted, held_of-insert, held_by-le,
  available_of-insert, available_of_found,
}
use inventory_management_sys.Inventory.Invariant.{IsValid, Audited, Audited-write, keyed-insert}
use inventory_management_sys.Inventory.Settle.{
  settle_row, settle_delta, settle_item, settle_items, settle, is_held,
}
use inventory_management_sys.Inventory.Records.{put_reservation}
use inventory_management_sys.Inventory.Settle.Effect.{
  entry_of, settle_row_lem, settle_item-cases, settle_items-Moves, Moves,
}
use inventory_management_sys.Inventory.Settle.Fits.{settle_items-ok, Fits}

-- The ledger's delta is what the row's `available_qty` gained.
settle_delta-returned :
    (reason : LedgerReason) (q a : ℕ) → settle_delta reason q +ℤ pos a ≡ pos (a + returned reason q)
unfolding settle_delta ◌+ℤ◌
settle_delta-returned LedgerReason.commit q a = ground arith
settle_delta-returned _ q a = ground arith

settle_item-Audited :
    (reason : LedgerReason) (o k : Uuid) (q : ℕ) (s t : Inventory)
    → settle_item reason o k q s ≡ ok t
    → Audited s.stock s.ledger
    → Audited t.stock t.ledger
settle_item-Audited reason o k q s t e a = elim (settle_item-cases reason o k q s t e) [
  | inl (missing, same) ↦ rw same a
  | inr (old, new, w) ↦
      rw (w.stock_lem, w.ledger_lem)
        (Audited-write k new (entry_of reason o k q new) s.stock s.ledger refl refl
          (rw (available_of_found k s.stock old w.found, settle_delta-returned)
            (ap pos (sym (settle_row_lem reason q old new w.settled).1)))
          a)
]

-- What every round keeps, the loop keeps.
settle_items-keeps {ℓ} :
    (P : Inventory → Type ℓ) (reason : LedgerReason) (o : Uuid)
    → ((k : Uuid) (q : ℕ) (s t : Inventory) → settle_item reason o k q s ≡ ok t → P s → P t)
    → (items : List (Uuid × ℕ)) (s t : Inventory) → settle_items reason o items s ≡ ok t
    → P s
    → P t
unfolding settle_items
settle_items-keeps P reason o round [] s t e h = let same : s ≡ t = ground arith in rw (← same) h
settle_items-keeps P reason o round ((k, q) ∷ items) s t e h =
    elim (Result-cases (settle_item reason o k q s)) [
      | inr (x, failed) ↦ absurd (ground arith)
      | inl (u, first) ↦
          settle_items-keeps P reason o round items u t (ground arith) (round k q s u first h)
    ]

settle_row_range :
    (reason : LedgerReason) (q : ℕ) (row new : StockItem)
    → settle_row reason q row ≡ ok new
    → row.available_qty ≤ int_max
    → new.available_qty ≤ int_max
unfolding settle_row
settle_row_range LedgerReason.commit q row new e h = ground arith
settle_row_range LedgerReason.restock q row new e h = ground arith
settle_row_range _ q row new e h = ground arith

settle_item_range :
    (reason : LedgerReason) (o k : Uuid) (q : ℕ) (s t : Inventory)
    → settle_item reason o k q s ≡ ok t
    → ((j : Uuid) → available_of j s.stock ≤ int_max)
    → (j : Uuid) → available_of j t.stock ≤ int_max
settle_item_range reason o k q s t e h j = elim (settle_item-cases reason o k q s t e) [
  | inl (missing, same) ↦ rw same (h j)
  | inr (old, new, w) ↦
      rw (w.stock_lem, available_of-insert)
        (ground (
          arith,
          h j,
          settle_row_range reason q old new w.settled
              (rw (available_of_found k s.stock old w.found) at (h k)),
        ))
]

-- A reservation that gives up its hold: what its loop draws is what the status no longer holds.
abbrev pub Balances : LedgerReason → ReservationStatus → Reservation → Inventory → Type 0
Balances reason status r s =
    (j : Uuid)
    → drawn reason (counted j s.stock (qty_of j r.items)) + held_by j (record r { status = status })
      ≡ held_by j r

-- What a whole `settle` has done.
pub record Settled (reason : LedgerReason) (status : ReservationStatus) (r r' : Reservation)
    (s t : Inventory) : Type 0 where
  pub result : r' ≡ record r { status = status }
  pub moved : Moves reason (λ j. qty_of j r.items) s.stock t.stock
  pub table : t.reservations ≡ insert r.order_id (record r { status = status }) s.reservations
  pub audit : Audited s.stock s.ledger → Audited t.stock t.ledger
  pub range :
      ((j : Uuid) → available_of j s.stock ≤ int_max)
      → (j : Uuid) → available_of j t.stock ≤ int_max

pub settle-Settled :
    (reason : LedgerReason) (status : ReservationStatus) (r r' : Reservation) (s t : Inventory)
    → settle reason status r s ≡ ok (r', t)
    → Settled reason status r r' s t
unfolding settle
settle-Settled reason status r r' s t e =
    elim (Result-cases (settle_items reason r.order_id r.items s)) [
      | inr (x, failed) ↦ absurd (ground arith)
      | inl (u, loop) ↦
          let (moved, same) = settle_items-Moves reason r.order_id r.items s u loop in
          let stock_lem : t.stock ≡ u.stock = ground arith in
          let ledger_lem : t.ledger ≡ u.ledger = ground arith in
          record {
            result = ground arith;
            moved = rw stock_lem moved;
            table = ground (arith, same);
            audit = λ a.
                rw (stock_lem, ledger_lem)
                  (settle_items-keeps (λ x. Audited x.stock x.ledger) reason r.order_id
                    (settle_item-Audited reason r.order_id) r.items s u loop a);
            range = λ h j. rw stock_lem (
                settle_items-keeps (λ x. (j : Uuid) → available_of j x.stock ≤ int_max) reason
                  r.order_id (settle_item_range reason r.order_id) r.items s u loop h j);
          }
    ]

pub settle-IsValid :
    (reason : LedgerReason) (status : ReservationStatus) (r r' : Reservation) (s t : Inventory)
    → IsValid s
    → lookup r.order_id s.reservations ≡ some r
    → Balances reason status r s
    → settle reason status r s ≡ ok (r', t)
    → IsValid t
settle-IsValid reason status r r' s t v found bal e =
    let d = settle-Settled reason status r r' s t e in
    let done : Reservation = record r { status = status } in
    record {
      available_fits = d.range v.available_fits;
      reserved_fits = λ j. omega (arith, d.moved.reserved j, v.reserved_fits j);
      reserved_held = λ j. rw d.table (
          omega (
            arith,
            held_of-insert j r.order_id done s.reservations found,
            v.reserved_held j,
            bal j,
            d.moved.reserved j,
          ));
      keyed = λ o x. rw d.table (keyed-insert done s.reservations v.keyed o x);
      distinct = rw d.table (insert-Distinct r.order_id done s.reservations v.distinct);
      audited = d.audit v.audited;
    }

-- A held reservation's products all have rows: what is held of the others is nothing.
pub counted-held :
    (r : Reservation) (s : Inventory)
    → IsValid s
    → lookup r.order_id s.reservations ≡ some r
    → r.status ≡ ReservationStatus.held
    → (j : Uuid) → counted j s.stock (qty_of j r.items) ≡ qty_of j r.items
unfolding counted reserved_of held_by
counted-held r s v found h j =
    ground (arith, v.reserved_held j, held_by-le j r.order_id s.reservations {r = r} found)

-- Ending a hold draws all that the reservation held.
pub held-Balances :
    (reason : LedgerReason) (status : ReservationStatus) (r : Reservation) (s : Inventory)
    → IsValid s
    → lookup r.order_id s.reservations ≡ some r
    → r.status ≡ ReservationStatus.held
    → is_held status ≡ false
    → ((n : ℕ) → drawn reason n ≡ n)
    → Balances reason status r s
unfolding held_by
held-Balances reason status r s v found h ends draws j =
    ground (arith, counted-held r s v found h j, draws (counted j s.stock (qty_of j r.items)))

-- A held reservation's units are all reserved, so the loop that draws them goes through.
pub held-Fits :
    (reason : LedgerReason) (r : Reservation) (s : Inventory)
    → IsValid s
    → lookup r.order_id s.reservations ≡ some r
    → r.status ≡ ReservationStatus.held
    → ((n : ℕ) → drawn reason n ≡ n)
    → ((j : Uuid) → available_of j s.stock + returned reason (qty_of j r.items) ≤ int_max)
    → Fits reason (λ j. qty_of j r.items) s.stock
unfolding held_by
held-Fits reason r s v found h draws room = record {
  enough = λ j.
      rw (counted-held r s v found h j, draws)
        (ground (arith, v.reserved_held j, held_by-le j r.order_id s.reservations {r = r} found));
  in_column = v.reserved_fits;
  room = λ j. rw (counted-held r s v found h j) (room j);
}

pub settle-ok :
    (reason : LedgerReason) (status : ReservationStatus) (r : Reservation) (s : Inventory)
    → Fits reason (λ j. qty_of j r.items) s.stock
    → (t : Inventory) × (settle reason status r s ≡ ok (record r { status = status }, t))
unfolding settle
settle-ok reason status r s f =
    let (u, loop) = settle_items-ok reason r.order_id r.items s f in
    (put_reservation r.order_id (record r { status = status }) u, rw loop)
