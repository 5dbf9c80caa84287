-- ===== src/Inventory/Reserve/Refusals.antt =====
-- The branches on which `reserve` reserves nothing, and the invariant on every branch.
use inventory_management_sys.Prelude.{
  ℕ, ◌+◌, ◌≡◌, ◌≢◌, ◌<◌, subst, ◌∙◌, inl, inr, List, [], ◌∷◌, none, some, Option, ℤ, pos, suc, Dict,
  insert, lookup, lookup-insert_self, All, Uuid, arith, Option-cases,
}
use inventory_management_sys.Common.Errors.{Error, ok, err, Result-cases}
use inventory_management_sys.Common.Events.{Topic, Payload, InsufficientItem}
use inventory_management_sys.Common.Outbox.{enqueue_event}
use inventory_management_sys.Inventory.Models.{Inventory, Reservation, Settings}
use inventory_management_sys.Inventory.Quantities.{available_of}
use inventory_management_sys.Inventory.Invariant.{IsValid}
use inventory_management_sys.Inventory.Records.{publish_reservation_failed}
use inventory_management_sys.Inventory.Reserve.{
  ReserveRequest, Outside, positive, aggregate, sort_by_id, lock_rows, insufficient_items,
  quantity_in, reserve_checked, reserve_new, reserve,
}
use inventory_management_sys.Inventory.Reserve.Lines.{
  IsPositive, line_qty, aggregate-ok, aggregate-validation, aggregate_lem,
}
use inventory_management_sys.Inventory.Reserve.Stock.{insufficient_items-Covers, quantity_in-le}
use inventory_management_sys.Inventory.Reserve.Held.{IsValid-same, Held, Held-same}
use inventory_management_sys.Inventory.Reserve.Results.{
  lock_rows_lem, checked_Held, checked_some, List-cases, reserve-new,
}

positive-err : (q : ℤ) (x : Error) → positive q ≡ err x → x ≡ Error.validation
unfolding positive
positive-err (pos (suc n)) x e = absurd (cc)
positive-err _ x e = ground arith

-- The loop over the lines fails in one way only.
aggregate-err :
    (items : List (Uuid × ℤ)) (d : Dict ℕ) (x : Error)
    → aggregate items d ≡ err x
    → x ≡ Error.validation
unfolding aggregate
aggregate-err [] d x e = ground arith
aggregate-err ((k, q) ∷ items) d x e = elim (Result-cases (positive q)) [
  | inl (n, fine) ↦ aggregate-err items (insert k (quantity_in k d + n) d) x (ground arith)
  | inr (y, failed) ↦ ground (arith, positive-err q y)
]

module _ (settings : Settings) (o : Outside) (request : ReserveRequest) (s : Inventory)
    (nonempty : request.items ≢ []) (fresh : lookup request.order_id s.reservations ≡ none) where
  -- If a new order has some line, all its lines are positive and some product falls short of what
  -- the lines sum to, nothing is reserved: no table but the outbox changes, and that gains one
  -- inventory.reservation_failed event, which names at least one product.
  pub reserve_short :
      All (λ item. IsPositive item.1) request.items
      → (j : Uuid) → available_of j s.stock < line_qty j request.items
      → (t : Inventory) × (short : InsufficientItem) × (shorts : List InsufficientItem) × (reserve
            settings o request s
          ≡ ok (none, t))
        × (t.stock ≡ s.stock)
        × (t.reservations ≡ s.reservations)
        × (t.ledger ≡ s.ledger)
        × (t.outbox
            ≡ enqueue_event Topic.inventory_reservation_failed request.order_id
                (Payload.reservation_failed (record {
                  order_id = request.order_id;
                  user_id = request.user_id;
                  reason = "insufficient stock";
                  insufficient_items = short ∷ shorts;
                }))
                request.order_id
                s.outbox)
  unfolding reserve_new reserve_checked quantity_in lookup
  reserve_short positive j less =
      let (w, summed) = aggregate-ok request.items [] positive in
      let l = lock_rows (sort_by_id w) s in
      let (stock_lem, res_lem, ledger_lem, outbox_lem) = lock_rows_lem (sort_by_id w) s in
      elim (List-cases (insufficient_items l.stock w)) [
        | inl covered ↦
            let le =
              quantity_in-le j s.stock w
                (insufficient_items-Covers s.stock w (rw stock_lem at covered)) in
            absurd (omega (arith, (aggregate_lem request.items [] w tt summed).1 j))
        | inr (short, shorts, some_short) ↦ (
          publish_reservation_failed request.order_id request.user_id "insufficient stock"
              (short ∷ shorts) l,
          short,
          shorts,
          reserve-new settings o request s nonempty fresh ∙ rw (summed, some_short),
          stock_lem,
          res_lem,
          ledger_lem,
          rw outbox_lem,
        )
      ]

  -- A new order with some line, one of whose lines has a quantity that is not positive, makes
  -- `reserve` raise ValidationError.
  pub reserve_not_positive :
      ¬ All (λ item. IsPositive item.1) request.items
      → reserve settings o request s ≡ err Error.validation
  unfolding reserve_new
  reserve_not_positive bad = elim (Result-cases (aggregate request.items [])) [
    | inl (w, summed) ↦ absurd (bad (aggregate-validation request.items [] w summed))
    | inr (x, failed) ↦
        reserve-new settings o request s nonempty fresh
        ∙ rw (failed, aggregate-err request.items [] x failed)
  ]

checked-none_IsValid :
    (settings : Settings) (o : Outside) (request : ReserveRequest) (w : Dict ℕ)
    (short : InsufficientItem) (shorts : List InsufficientItem) (x : Option Reservation)
    (s t : Inventory)
    → IsValid s
    → reserve_checked settings o request w (short ∷ shorts) s ≡ ok (x, t)
    → IsValid t
unfolding reserve_checked
checked-none_IsValid settings o request w short shorts x s t v e =
    IsValid-same s t (ground arith) (ground arith) (ground arith) v

reserve_new-IsValid :
    (settings : Settings) (o : Outside) (request : ReserveRequest) (x : Option Reservation)
    (s t : Inventory)
    → IsValid s
    → lookup request.order_id s.reservations ≡ none
    → reserve_new settings o request s ≡ ok (x, t)
    → IsValid t
unfolding reserve_new
reserve_new-IsValid settings o request x s t v fresh e =
    elim (Result-cases (aggregate request.items [])) [
      | inr (y, failed) ↦ absurd (ground arith)
      | inl (w, summed) ↦
          let l = lock_rows (sort_by_id w) s in
          let (stock_lem, res_lem, ledger_lem, _) = lock_rows_lem (sort_by_id w) s in
          let valid : IsValid l = IsValid-same s l stock_lem res_lem ledger_lem v in
          let checked : reserve_checked settings o request w (insufficient_items l.stock w) l
              ≡ ok (x, t) =
            ground arith in
          elim (List-cases (insufficient_items l.stock w)) [
            | inr (short, shorts, some_short) ↦
                checked-none_IsValid settings o request w short shorts x l t valid (
                  subst (λ i. reserve_checked settings o request w i l ≡ ok (x, t)) some_short
                    checked)
            | inl covered ↦
                let through : reserve_checked settings o request w [] l ≡ ok (x, t) =
                  subst (λ i. reserve_checked settings o request w i l ≡ ok (x, t)) covered
                    checked in
                let (r, held) = checked_some settings o request w summed x l t through in
                (checked_Held settings o request w summed r l t (
                    subst (λ i. reserve_checked settings o request w [] l ≡ ok (i, t)) held
                      through)).1
                  valid (rw res_lem fresh)
          ]
    ]

-- Whatever `reserve` returns, the database it leaves is valid.
pub reserve-IsValid :
    (settings : Settings) (o : Outside) (request : ReserveRequest) (x : Option Reservation)
    (s t : Inventory)
    → IsValid s
    → reserve settings o request s ≡ ok (x, t)
    → IsValid t
unfolding reserve
reserve-IsValid settings o request x s t v e = elim (List-cases request.items) [
  | inl empty ↦ absurd (ground arith)
  | inr (y, r, lines) ↦ elim (Option-cases (lookup request.order_id s.reservations)) [
    | inr (old, found) ↦ let same : s ≡ t = ground arith in rw (← same) v
    | inl fresh ↦ reserve_new-IsValid settings o request x s t v fresh (ground arith)
  ]
]

-- A reservation that is returned is stored, for the units of its lines.
checked-some_absurd :
    (settings : Settings) (o : Outside) (request : ReserveRequest) (w : Dict ℕ)
    (short : InsufficientItem) (shorts : List InsufficientItem) (r : Reservation) (s t : Inventory)
    → ¬ (reserve_checked settings o request w (short ∷ shorts) s ≡ ok (some r, t))
unfolding reserve_checked
checked-some_absurd settings o request w short shorts r s t e = ground arith

reserve_new-Held :
    (settings : Settings) (o : Outside) (request : ReserveRequest) (r : Reservation)
    (s t : Inventory)
    → reserve_new settings o request s ≡ ok (some r, t)
    → Held request r s t
unfolding reserve_new
reserve_new-Held settings o request r s t e = elim (Result-cases (aggregate request.items [])) [
  | inr (y, failed) ↦ absurd (ground arith)
  | inl (w, summed) ↦
      let l = lock_rows (sort_by_id w) s in
      let (stock_lem, res_lem, _, _) = lock_rows_lem (sort_by_id w) s in
      let checked : reserve_checked settings o request w (insufficient_items l.stock w) l
          ≡ ok (some r, t) =
        ground arith in
      elim (List-cases (insufficient_items l.stock w)) [
        | inr (short, shorts, some_short) ↦ absurd (
            checked-some_absurd settings o request w short shorts r l t (
              subst (λ i. reserve_checked settings o request w i l ≡ ok (some r, t)) some_short
                checked))
        | inl covered ↦
            Held-same request r s l t stock_lem res_lem
              (checked_Held settings o request w summed r l t (
                subst (λ i. reserve_checked settings o request w i l ≡ ok (some r, t)) covered
                  checked)).0
      ]
]

-- Whenever `reserve` returns a reservation, the order had none before, and the reservation is
-- HELD, holds of every product just what the lines sum to, and has taken exactly those units from
-- available to reserved.
pub reserve-Held :
    (settings : Settings) (o : Outside) (request : ReserveRequest) (r : Reservation)
    (s t : Inventory)
    → reserve settings o request s ≡ ok (some r, t)
    → (lookup request.order_id s.reservations ≡ none) × Held request r s t
unfolding reserve
reserve-Held settings o request r s t e = elim (List-cases request.items) [
  | inl empty ↦ absurd (ground arith)
  | inr (y, rest, lines) ↦ elim (Option-cases (lookup request.order_id s.reservations)) [
    | inr (old, found) ↦ absurd (ground arith)
    | inl fresh ↦ (fresh, reserve_new-Held settings o request r s t (ground arith))
  ]
]

-- Once `reserve` has returned a reservation, a second delivery for the same order with some line,
-- whatever else it says, returns nothing and changes nothing.
pub reserve_twice :
    (settings settings' : Settings) (o o' : Outside) (request request' : ReserveRequest)
    (r : Reservation) (s t : Inventory)
    → reserve settings o request s ≡ ok (some r, t)
    → request'.order_id ≡ request.order_id
    → request'.items ≢ []
    → reserve settings' o' request' t ≡ ok (none, t)
unfolding reserve
reserve_twice settings settings' o o' request request' r s t e same nonempty =
    let (_, held) = reserve-Held settings o request r s t e in
    let stored : lookup request.order_id t.reservations ≡ some r =
      rw held.table (lookup-insert_self request.order_id r s.reservations) in
    elim (List-cases request'.items) [
      | inl empty ↦ absurd (nonempty empty)
      | inr (y, rest, lines) ↦ ground arith
    ]
