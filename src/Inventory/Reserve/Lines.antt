-- ===== src/Inventory/Reserve/Lines.antt =====
-- The lines of an order: the loop that sums them per product, and the sort before the stock moves.
use inventory_management_sys.Prelude.{
  ℕ, suc, ◌+◌, ◌≡◌, ◌<◌, refl, inl, inr, List, [], ◌∷◌, ℤ, pos, pos_part, ltb_ℤ, Dict, Distinct,
  lookup, insert, insert-Distinct, lookup-insert, All, Uuid, ◌==◌, if◌then◌else◌, leb, arith,
  Bool-cases, ==_iff, true,
}
use inventory_management_sys.Common.Errors.{ok, Result-cases}
use inventory_management_sys.Inventory.Quantities.{qty_of}
use inventory_management_sys.Inventory.Reserve.{
  positive, quantity_in, aggregate, insert_by_id, sort_by_id,
}

-- A quantity that `reserve` accepts.
abbrev pub IsPositive : ℤ → Type 0
IsPositive q = ltb_ℤ (pos 0) q ≡ true

-- The units of a product among all the lines of an order.
unfoldable pub line_qty : Uuid → List (Uuid × ℤ) → ℕ
line_qty j [] = 0
line_qty j ((k, q) ∷ items) = (if j == k then pos_part q else 0) + line_qty j items

positive-ok : (q : ℤ) → IsPositive q → positive q ≡ ok (pos_part q)
unfolding positive
positive-ok (pos (suc n)) h = refl
positive-ok _ h = absurd (ground arith)

positive-eq-ok : (q : ℤ) (n : ℕ) → positive q ≡ ok n → (pos_part q ≡ n) × IsPositive q
unfolding positive
positive-eq-ok (pos (suc m)) n e = ground arith
positive-eq-ok _ n e = absurd (ground arith)

quantity_in-insert :
    (j k : Uuid) (n : ℕ) (d : Dict ℕ)
    → quantity_in j (insert k n d) ≡ (if j == k then n else quantity_in j d)
unfolding quantity_in
quantity_in-insert j k n d = ground (arith, lookup-insert j k n d)

-- The loop goes through when every quantity is positive.
pub aggregate-ok :
    (items : List (Uuid × ℤ)) (d : Dict ℕ)
    → All (λ item. IsPositive item.1) items
    → (w : Dict ℕ) × (aggregate items d ≡ ok w)
unfolding aggregate
aggregate-ok [] d h = (d, refl)
aggregate-ok ((k, q) ∷ items) d (h, hs) =
    let (w, e) = aggregate-ok items (insert k (quantity_in k d + pos_part q) d) hs in
    (w, rw (positive-ok q h) e)

-- One line that is not positive stops it.
pub aggregate-validation :
    (items : List (Uuid × ℤ)) (d w : Dict ℕ)
    → aggregate items d ≡ ok w
    → All (λ item. IsPositive item.1) items
unfolding aggregate
aggregate-validation [] d w e = tt
aggregate-validation ((k, q) ∷ items) d w e = elim (Result-cases (positive q)) [
  | inr (x, failed) ↦ absurd (ground arith)
  | inl (n, fine) ↦ (
    (positive-eq-ok q n fine).1,
    aggregate-validation items (insert k (quantity_in k d + n) d) w (ground arith),
  )
]

-- The sums are those of the lines, and a product stands once.
pub aggregate_lem :
    (items : List (Uuid × ℤ)) (d w : Dict ℕ)
    → Distinct d
    → aggregate items d ≡ ok w
    → Distinct w × ((j : Uuid) → quantity_in j w ≡ quantity_in j d + line_qty j items)
unfolding aggregate line_qty
aggregate_lem [] d w h e = let same : d ≡ w = ground arith in rw (← same) (h, λ j. omega arith)
aggregate_lem ((k, q) ∷ items) d w h e = elim (Result-cases (positive q)) [
  | inr (x, failed) ↦ absurd (ground arith)
  | inl (n, fine) ↦
      let d' = insert k (quantity_in k d + n) d in
      let (distinct, sums) =
        aggregate_lem items d' w (insert-Distinct k (quantity_in k d + n) d h) (ground arith) in
      (
        distinct,
        λ j. elim (Bool-cases (j == k)) [
          | inl eq ↦
              let same : j ≡ k = (==_iff j k).0 eq in
              ground (
                arith,
                sums j,
                quantity_in-insert j k (quantity_in k d + n) d,
                positive-eq-ok q n fine,
              )
          | inr ne ↦ ground (arith, sums j, quantity_in-insert j k (quantity_in k d + n) d)
        ],
      )
]

-- In a dict the units among all items are those under the key.
pub qty_of-quantity_in : (j : Uuid) (w : Dict ℕ) → Distinct w → qty_of j w ≡ quantity_in j w
unfolding qty_of quantity_in lookup
qty_of-quantity_in j [] h = refl
qty_of-quantity_in j ((k, n) ∷ w) h = elim (Bool-cases (j == k)) [
  | inl eq ↦ let same : j ≡ k = (==_iff j k).0 eq in ground (arith, h.0, qty_of-quantity_in j w h.1)
  | inr ne ↦ ground (arith, qty_of-quantity_in j w h.1)
]

qty_of-insert_by_id :
    (j k : Uuid) (n : ℕ) (items : List (Uuid × ℕ))
    → qty_of j (insert_by_id (k, n) items) ≡ qty_of j ((k, n) ∷ items)
unfolding qty_of insert_by_id
qty_of-insert_by_id j k n [] = refl
qty_of-insert_by_id j k n (x ∷ items) = ground (arith, qty_of-insert_by_id j k n items)

pub qty_of-sort_by_id :
    (j : Uuid) (items : List (Uuid × ℕ)) → qty_of j (sort_by_id items) ≡ qty_of j items
unfolding qty_of sort_by_id
qty_of-sort_by_id j [] = refl
qty_of-sort_by_id j ((k, n) ∷ items) =
    ground (arith, qty_of-insert_by_id j k n (sort_by_id items), qty_of-sort_by_id j items)

-- A predicate on the items passes through the sort.
All-insert_by_id {ℓ} :
    (P : Uuid × ℕ → Type ℓ) (item : Uuid × ℕ) (items : List (Uuid × ℕ))
    → P item
    → All P items
    → All P (insert_by_id item items)
unfolding insert_by_id
All-insert_by_id P item [] h hs = (h, hs)
All-insert_by_id P item (x ∷ items) h hs = elim (Bool-cases (leb item.0 x.0)) [
  | inl first ↦ rw first (h, hs)
  | inr later ↦ rw later (hs.0, All-insert_by_id P item items h hs.1)
]

pub All-sort_by_id {ℓ} :
    (P : Uuid × ℕ → Type ℓ) (items : List (Uuid × ℕ)) → All P items → All P (sort_by_id items)
unfolding sort_by_id
All-sort_by_id P [] h = tt
All-sort_by_id P (item ∷ items) h =
    All-insert_by_id P item (sort_by_id items) h.0 (All-sort_by_id P items h.1)

-- Every sum is positive.
All-insert :
    (k : Uuid) (n : ℕ) (d : Dict ℕ)
    → 0 < n
    → All (λ item. 0 < item.1) d
    → All (λ item. 0 < item.1) (insert k n d)
unfolding insert
All-insert k n [] h hs = (h, tt)
All-insert k n ((i, m) ∷ d) h hs = ground (arith, All-insert k n d h hs.1)

pub aggregate-positive :
    (items : List (Uuid × ℤ)) (d w : Dict ℕ)
    → All (λ item. 0 < item.1) d
    → aggregate items d ≡ ok w
    → All (λ item. 0 < item.1) w
unfolding aggregate
aggregate-positive [] d w h e = let same : d ≡ w = ground arith in rw (← same) h
aggregate-positive ((k, q) ∷ items) d w h e = elim (Result-cases (positive q)) [
  | inr (x, failed) ↦ absurd (ground arith)
  | inl (n, fine) ↦
      aggregate-positive items (insert k (quantity_in k d + n) d) w
        (All-insert k (quantity_in k d + n) d (ground (arith, positive-eq-ok q n fine)) h)
        (ground arith)
]
