-- ===== src/Common/Outbox/Drain.antt =====
-- How many rows wait before and after a pass of `_publish_batch` in common/common/db/outbox.py.
use inventory_management_sys.Prelude.{
  ℕ, zero, suc, ◌+◌, ◌<◌, ◌≡◌, refl, sym, ap, subst, inl, inr, Bool, true, false, List, [], ◌∷◌,
  length, take, All, none, Dict, Distinct, lookup, Datetime, arith, if◌then◌else◌, Bool-cases,
}
use inventory_management_sys.Common.Outbox.{OutboxRow}
use inventory_management_sys.Common.Outbox.Publisher.{
  mark_published, written, insert_by_creation, select_rows, write_rows, pending_count,
}
use inventory_management_sys.Common.Outbox.Selection.{
  unpublished, IsWaitingAt, IsWaitingAt-le, All-map, All-take, All-select_rows,
  select_rows-Distinct,
}

-- A selected row in front of the place n is not written from there on.
write_rows-below :
    (accepts : ℕ → Bool) (k n : ℕ) (r : OutboxRow) (picked : Dict OutboxRow) (rows : List OutboxRow)
    → k < n
    → write_rows accepts ((k, r) ∷ picked) n rows ≡ write_rows accepts picked n rows
unfolding write_rows lookup
write_rows-below accepts k n r picked [] h = refl
write_rows-below accepts k n r picked (row ∷ rows) h =
    ground (arith, write_rows-below accepts k (suc n) r picked rows (omega arith))

-- One more row that is sent is one fewer that waits.
write_rows-one :
    (accepts : ℕ → Bool) (k n : ℕ) (r : OutboxRow) (picked : Dict OutboxRow) (rows : List OutboxRow)
    → ((i : ℕ) → accepts i ≡ true)
    → lookup k picked ≡ none
    → IsWaitingAt n rows k
    → suc (pending_count (write_rows accepts ((k, r) ∷ picked) n rows))
      ≡ pending_count (write_rows accepts picked n rows)
unfolding write_rows lookup pending_count written mark_published
write_rows-one accepts k n r picked [] up fresh h = elim h [ ]
write_rows-one accepts k n r picked (row ∷ rows) up fresh (inl (here, waits)) = ground (
  arith,
  up n,
  write_rows-below accepts k (suc n) r picked rows (omega arith),
  subst (λ i. lookup i picked ≡ none) here fresh,
)
write_rows-one accepts k n r picked (row ∷ rows) up fresh (inr h) = ground (
  arith,
  IsWaitingAt-le (suc n) k rows h,
  write_rows-one accepts k (suc n) r picked rows up fresh h,
)

write_rows-none :
    (accepts : ℕ → Bool) (n : ℕ) (rows : List OutboxRow) → write_rows accepts [] n rows ≡ rows
unfolding write_rows lookup
write_rows-none accepts n [] = refl
write_rows-none accepts n (row ∷ rows) = ap (λ rs. row ∷ rs) (write_rows-none accepts (suc n) rows)

-- If the broker takes every message, as many rows fewer wait as were selected.
write_rows-pending :
    (accepts : ℕ → Bool) (n : ℕ) (picked : Dict OutboxRow) (rows : List OutboxRow)
    → ((i : ℕ) → accepts i ≡ true)
    → All (λ p. IsWaitingAt n rows p.0) picked
    → Distinct picked
    → length picked + pending_count (write_rows accepts picked n rows) ≡ pending_count rows
write_rows-pending accepts n [] rows up h d =
    omega (arith, ap pending_count (write_rows-none accepts n rows))
write_rows-pending accepts n ((k, r) ∷ picked) rows up h d = omega (
  arith,
  write_rows-one accepts k n r picked rows up d.0 h.0,
  write_rows-pending accepts n picked rows up h.1 d.1,
)

unpublished-IsWaitingAt :
    (n : ℕ) (rows : List OutboxRow) → All (λ p. IsWaitingAt n rows p.0) (unpublished n rows)
unfolding unpublished
unpublished-IsWaitingAt n [] = tt
unpublished-IsWaitingAt n (row ∷ rows) =
    let rest =
      All-map (unpublished (suc n) rows) (λ p h. inr h) (unpublished-IsWaitingAt (suc n) rows) in
    let family : Bool → Type 0 = λ published.
      All (λ p. IsWaitingAt n (row ∷ rows) p.0)
        (if published then unpublished (suc n) rows else (n, row) ∷ unpublished (suc n) rows) in
    elim (Bool-cases row.published) [
      | inl done ↦ subst family (sym done) rest
      | inr waits ↦ subst family (sym waits) (inl (refl, waits), rest)
    ]

lookup-take-none : (k n : ℕ) (d : Dict OutboxRow) → lookup k d ≡ none → lookup k (take n d) ≡ none
unfolding lookup
lookup-take-none k zero d h = refl
lookup-take-none k (suc n) [] h = refl
lookup-take-none k (suc n) (p ∷ d) h = ground (arith, lookup-take-none k n d)

Distinct-take : (n : ℕ) (d : Dict OutboxRow) → Distinct d → Distinct (take n d)
Distinct-take zero d h = tt
Distinct-take (suc n) [] h = tt
Distinct-take (suc n) (p ∷ d) h = (lookup-take-none p.0 n d h.0, Distinct-take n d h.1)

-- The same for the first rows of the query.
pub select_rows-pending :
    (created_at : ℕ → Datetime) (elsewhere accepts : ℕ → Bool) (limit : ℕ) (rows : List OutboxRow)
    → ((i : ℕ) → accepts i ≡ true)
    → let picked = take limit (select_rows created_at elsewhere 0 rows) in
      length picked + pending_count (write_rows accepts picked 0 rows) ≡ pending_count rows
select_rows-pending created_at elsewhere accepts limit rows up =
    let selected = select_rows created_at elsewhere 0 rows in
    let waiting : All (λ p. IsWaitingAt 0 rows p.0) selected =
      All-select_rows created_at (λ p. IsWaitingAt 0 rows p.0) elsewhere 0 rows
        (unpublished-IsWaitingAt 0 rows) in
    write_rows-pending accepts 0 (take limit selected) rows up
      (All-take (λ p. IsWaitingAt 0 rows p.0) limit selected waiting)
      (Distinct-take limit selected (select_rows-Distinct created_at elsewhere 0 rows))

length-insert_by_creation :
    (created_at : ℕ → Datetime) (p : ℕ × OutboxRow) (qs : Dict OutboxRow)
    → length (insert_by_creation created_at p qs) ≡ suc (length qs)
unfolding insert_by_creation
length-insert_by_creation created_at p [] = refl
length-insert_by_creation created_at p (q ∷ qs) =
    ground (arith, length-insert_by_creation created_at p qs)

-- Where no other publisher has locked a row, the query counts the rows that wait.
pub length-select_rows :
    (created_at : ℕ → Datetime) (elsewhere : ℕ → Bool) (n : ℕ) (rows : List OutboxRow)
    → ((i : ℕ) → elsewhere i ≡ false)
    → length (select_rows created_at elsewhere n rows) ≡ pending_count rows
unfolding select_rows pending_count
length-select_rows created_at elsewhere n [] free = refl
length-select_rows created_at elsewhere n (row ∷ rows) free = ground (
  arith,
  free n,
  length-select_rows created_at elsewhere (suc n) rows free,
  length-insert_by_creation created_at (n, row) (select_rows created_at elsewhere (suc n) rows),
)
