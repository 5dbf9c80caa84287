-- ===== src/Inventory/Reserve/Results.antt =====
-- What `reserve` returns and does on every branch.
use inventory_management_sys.Prelude.{
  ℕ, ◌≡◌, ◌≢◌, ◌≤◌, refl, ◌∙◌, ◌⊎◌, inl, inr, List, [], ◌∷◌, none, some, true, false, Option, ℤ,
  Dict, lookup, contains, All, Uuid, arith, Option-cases,
}
use inventory_management_sys.Common.Errors.{ok, Result-cases}
use inventory_management_sys.Inventory.Models.{Inventory, Reservation, Settings, StockItem}
use inventory_management_sys.Inventory.Quantities.{available_of, qty_of}
use inventory_management_sys.Inventory.Invariant.{IsValid}
use inventory_management_sys.Inventory.Records.{put_reservation, lock, publish_reserved}
use inventory_management_sys.Inventory.Invariant.{HasRoom}
use inventory_management_sys.Inventory.Reserve.{
  ReserveRequest, Outside, aggregate, sort_by_id, lock_rows, insufficient_items, quantity_in,
  new_reservation, reserve_items, reserve_checked, reserve_new, reserve,
}
use inventory_management_sys.Inventory.Reserve.Lines.{
  IsPositive, line_qty, aggregate-ok, aggregate_lem, aggregate-positive, qty_of-quantity_in,
  qty_of-sort_by_id, All-sort_by_id,
}
use inventory_management_sys.Inventory.Reserve.Stock.{Covers, insufficient_of_Covers, qty_of-Covers}
use inventory_management_sys.Inventory.Reserve.Loop.{reserve_items-Takes, reserve_items-ok}
use inventory_management_sys.Inventory.Reserve.Held.{Held, Held-IsValid, IsValid-same, Held-same}

-- Locking rows changes no table.
pub lock_rows_lem :
    (items : List (Uuid × ℕ)) (s : Inventory)
    → ((lock_rows items s).stock ≡ s.stock)
      × ((lock_rows items s).reservations ≡ s.reservations)
      × ((lock_rows items s).ledger ≡ s.ledger)
      × ((lock_rows items s).outbox ≡ s.outbox)
unfolding lock_rows lock
lock_rows_lem [] s = (refl, refl, refl, refl)
lock_rows_lem ((k, q) ∷ items) s = elim (Option-cases (lookup k s.stock)) [
  | inl missing ↦ ground (arith, lock_rows_lem items s)
  | inr (row, found) ↦ ground (arith, lock_rows_lem items (lock k s))
]

-- The sums of an order's lines, once `aggregate` has gone through.
pub sorted_qty :
    (items : List (Uuid × ℤ)) (w : Dict ℕ)
    → aggregate items [] ≡ ok w
    → (j : Uuid) → qty_of j (sort_by_id w) ≡ line_qty j items
unfolding quantity_in lookup
sorted_qty items w e j =
    let (distinct, sums) = aggregate_lem items [] w tt e in
    omega (arith, qty_of-sort_by_id j w, qty_of-quantity_in j w distinct, sums j)

Covers-known :
    (stock : Dict StockItem) (w : List (Uuid × ℕ))
    → Covers stock w
    → All (λ item. contains item.0 stock ≡ true) w
Covers-known stock [] h = tt
Covers-known stock (item ∷ w) h = (h.0.0, Covers-known stock w h.1)

module _ (settings : Settings) (o : Outside) (request : ReserveRequest) (w : Dict ℕ)
    (summed : aggregate request.items [] ≡ ok w) where
  -- A reservation that `reserve_checked` returns, and the database with it.
  pub checked_Held :
      (r : Reservation) (s t : Inventory)
      → reserve_checked settings o request w [] s ≡ ok (some r, t)
      → Held request r s t × (IsValid s → lookup request.order_id s.reservations ≡ none → IsValid t)
  unfolding reserve_checked new_reservation
  checked_Held r s t e =
      let hold = new_reservation settings o request w in
      let u = put_reservation request.order_id hold s in
      elim (Result-cases (reserve_items request.order_id (sort_by_id w) u)) [
        | inr (x, failed) ↦ absurd (ground arith)
        | inl (v, loop) ↦
            let d = reserve_items-Takes request.order_id (sort_by_id w) u v loop in
            let same : r ≡ hold = ground arith in
            let stock_lem : t.stock ≡ v.stock = ground arith in
            let ledger_lem : t.ledger ≡ v.ledger = ground arith in
            let res_lem : t.reservations ≡ v.reservations = ground arith in
            let held : Held request r s t = record {
              is_held = rw same;
              own = rw same;
              exact = λ j. rw same (sorted_qty request.items w summed j);
              table = rw same (res_lem ∙ d.same_reservations);
              available = λ j.
                  rw stock_lem (omega (arith, d.available j, sorted_qty request.items w summed j));
              reserved = λ j.
                  rw stock_lem (omega (arith, d.reserved j, sorted_qty request.items w summed j));
            } in
            (
              held,
              λ valid fresh.
                  Held-IsValid request r s t held valid fresh
                    (λ j. rw stock_lem (d.range valid.reserved_fits j))
                    (rw (stock_lem, ledger_lem) (d.audit valid.audited)),
            )
      ]

  -- With nobody short it returns a reservation or raises.
  pub checked_some :
      (x : Option Reservation) (s t : Inventory)
      → reserve_checked settings o request w [] s ≡ ok (x, t)
      → (r : Reservation) × (x ≡ some r)
  unfolding reserve_checked new_reservation
  checked_some x s t e =
      let hold = new_reservation settings o request w in
      let u = put_reservation request.order_id hold s in
      elim (Result-cases (reserve_items request.order_id (sort_by_id w) u)) [
        | inr (y, failed) ↦ absurd (ground arith)
        | inl (v, loop) ↦ (hold, ground arith)
      ]

  -- It goes through when the stock covers what is wanted and no one else was quicker.
  checked_ok :
      (s : Inventory)
      → o.raced ≡ false
      → Covers s.stock w
      → ((j : Uuid) → line_qty j request.items ≤ available_of j s.stock)
      → HasRoom s
      → (r : Reservation) × (t : Inventory) × (reserve_checked settings o request w [] s
          ≡ ok (some r, t))
  unfolding reserve_checked new_reservation
  checked_ok s calm covers enough room =
      let hold = new_reservation settings o request w in
      let u = put_reservation request.order_id hold s in
      let (v, loop) =
        reserve_items-ok request.order_id (sort_by_id w) u
          (All-sort_by_id (λ item. contains item.0 s.stock ≡ true) w
            (Covers-known s.stock w covers))
          (λ j. omega (arith, enough j, sorted_qty request.items w summed j)) room in
      (
        hold,
        publish_reserved hold w request.total_amount request.currency request.payment_method v,
        rw (calm, loop),
      )

-- `insufficient` cannot be both.
pub List-cases {ℓ} :
    {A : Type ℓ} (xs : List A) → (xs ≡ []) ⊎ ((x : A) × (r : List A) × (xs ≡ x ∷ r))
List-cases [] = inl refl
List-cases (x ∷ r) = inr (x, r, refl)

module _ (settings : Settings) (o : Outside) (request : ReserveRequest) (s : Inventory)
    (nonempty : request.items ≢ []) (fresh : lookup request.order_id s.reservations ≡ none) where
  -- With a new order and some line, `reserve` is its second half.
  pub reserve-new : reserve settings o request s ≡ reserve_new settings o request s
  unfolding reserve
  reserve-new = elim (List-cases request.items) [
    | inl empty ↦ absurd (nonempty empty)
    | inr (x, r, some_lines) ↦ ground arith
  ]

  -- In a valid database whose shelves have room for all that is reserved, a new order with some
  -- line, whose lines are all positive and covered by the stock, is reserved, unless another
  -- transaction inserted its reservation meanwhile: the database stays valid, the reservation is
  -- HELD, holds of every product just what the lines sum to, and those units have gone from
  -- available to reserved.
  pub reserve_enough :
      IsValid s
      → HasRoom s
      → o.raced ≡ false
      → All (λ item. IsPositive item.1) request.items
      → ((j : Uuid) → line_qty j request.items ≤ available_of j s.stock)
      → (r : Reservation) × (t : Inventory) × (reserve settings o request s ≡ ok (some r, t))
        × IsValid t
        × Held request r s t
  unfolding reserve_new
  reserve_enough v room calm positive enough =
      let (w, summed) = aggregate-ok request.items [] positive in
      let l = lock_rows (sort_by_id w) s in
      let (stock_lem, res_lem, ledger_lem, outbox_lem) = lock_rows_lem (sort_by_id w) s in
      let covers : Covers s.stock w =
        qty_of-Covers s.stock w (aggregate-positive request.items [] w tt summed) (λ j.
          omega (arith, enough j, sorted_qty request.items w summed j, qty_of-sort_by_id j w)) in
      let none_short : insufficient_items l.stock w ≡ [] =
        rw stock_lem (insufficient_of_Covers s.stock w covers) in
      let (r, t, checked) =
        checked_ok settings o request w summed l calm (rw stock_lem covers) (rw stock_lem enough)
          (rw stock_lem room) in
      let (held, kept) = checked_Held settings o request w summed r l t checked in
      (
        r,
        t,
        reserve-new ∙ rw (summed, none_short) checked,
        kept (IsValid-same s l stock_lem res_lem ledger_lem v) (rw res_lem fresh),
        Held-same request r s l t stock_lem res_lem held,
      )
