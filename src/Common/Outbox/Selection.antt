-- ===== src/Common/Outbox/Selection.antt =====
-- What the query of `_publish_batch` in common/common/db/outbox.py selects, and in which order.
use mathlib.Core.List.{Perm}
use mathlib.Core.List.Perm
use inventory_management_sys.Prelude.{
  ℕ, zero, suc, ◌≤◌, ◌<◌, ◌≡◌, refl, subst, ◌≢◌, ◌⊎◌, inl, inr, Bool, true, false, ◌||◌, leb, List,
  [], ◌∷◌, take, All, none, Dict, Distinct, lookup, Datetime, if◌then◌else◌, arith, Bool-cases,
}
use inventory_management_sys.Common.Outbox.{OutboxRow}
use inventory_management_sys.Common.Outbox.Publisher.{insert_by_creation, select_rows}

-- The rows that wait, each with its place: the table's unpublished rows from the place n on.
unfoldable pub unpublished : ℕ → List OutboxRow → Dict OutboxRow
unpublished n [] = []
unpublished n (row ∷ rows) =
    if row.published then unpublished (suc n) rows else (n, row) ∷ unpublished (suc n) rows

-- No row was created before one that stands in front of it.
abbrev pub IsByCreation : (ℕ → Datetime) → Dict OutboxRow → Type 0
IsByCreation created_at [] = Unit
IsByCreation created_at (p ∷ ps) =
    All (λ q. created_at p.0 ≤ created_at q.0) ps × IsByCreation created_at ps

-- The table has a waiting row at the place k, where it starts at the place n.
abbrev pub IsWaitingAt : ℕ → List OutboxRow → ℕ → Type 0
IsWaitingAt n [] k = ⊥
IsWaitingAt n (row ∷ rows) k = ((k ≡ n) × (row.published ≡ false)) ⊎ IsWaitingAt (suc n) rows k

pub IsWaitingAt-le : (n k : ℕ) (rows : List OutboxRow) → IsWaitingAt n rows k → n ≤ k
IsWaitingAt-le n k [] h = elim h [ ]
IsWaitingAt-le n k (row ∷ rows) (inl h) = omega (arith, h.0)
IsWaitingAt-le n k (row ∷ rows) (inr h) = omega (arith, IsWaitingAt-le (suc n) k rows h)

pub All-map {ℓ κ} :
    {P : ℕ × OutboxRow → Type ℓ} {Q : ℕ × OutboxRow → Type κ} (ps : Dict OutboxRow)
    → ((p : ℕ × OutboxRow) → P p → Q p)
    → All P ps
    → All Q ps
All-map [] f h = tt
All-map (p ∷ ps) f h = (f p h.0, All-map ps f h.1)

pub All-take {ℓ} :
    (P : ℕ × OutboxRow → Type ℓ) (n : ℕ) (ps : Dict OutboxRow) → All P ps → All P (take n ps)
All-take P zero ps h = tt
All-take P (suc n) [] h = tt
All-take P (suc n) (p ∷ ps) h = (h.0, All-take P n ps h.1)

module _ (created_at : ℕ → Datetime) where
  All-insert_by_creation {ℓ} :
      (P : ℕ × OutboxRow → Type ℓ) (p : ℕ × OutboxRow) (qs : Dict OutboxRow)
      → P p
      → All P qs
      → All P (insert_by_creation created_at p qs)
  unfolding insert_by_creation
  All-insert_by_creation P p [] h hs = (h, hs)
  All-insert_by_creation P p (q ∷ qs) h hs =
      elim (Bool-cases (leb (created_at p.0) (created_at q.0))) [
        | inl first ↦ rw first (h, hs)
        | inr later ↦ rw later (hs.0, All-insert_by_creation P p qs h hs.1)
      ]

  insert_by_creation-IsByCreation :
      (p : ℕ × OutboxRow) (qs : Dict OutboxRow)
      → IsByCreation created_at qs
      → IsByCreation created_at (insert_by_creation created_at p qs)
  unfolding insert_by_creation
  insert_by_creation-IsByCreation p [] h = (tt, tt)
  insert_by_creation-IsByCreation p (q ∷ qs) h =
      elim (Bool-cases (leb (created_at p.0) (created_at q.0))) [
        | inl first ↦
            let le : created_at p.0 ≤ created_at q.0 = ground arith in
            rw first ((le, All-map qs (λ x later. omega (arith, le, later)) h.0), h)
        | inr later ↦
            let le : created_at q.0 ≤ created_at p.0 = ground arith in
            rw later (
              All-insert_by_creation (λ x. created_at q.0 ≤ created_at x.0) p qs le h.0,
              insert_by_creation-IsByCreation p qs h.1,
            )
      ]

  insert_by_creation-perm :
      (p : ℕ × OutboxRow) (qs : Dict OutboxRow) → Perm (insert_by_creation created_at p qs) (p ∷ qs)
  unfolding insert_by_creation
  insert_by_creation-perm p [] = Perm.refl (p ∷ [])
  insert_by_creation-perm p (q ∷ qs) = elim (Bool-cases (leb (created_at p.0) (created_at q.0))) [
    | inl first ↦ rw first (Perm.refl (p ∷ q ∷ qs))
    | inr later ↦
        rw later (Perm.trans (Perm.cons q (insert_by_creation-perm p qs)) (Perm.swap p q qs))
  ]

  -- The query selects in the order of creation.
  pub select_rows-IsByCreation :
      (elsewhere : ℕ → Bool) (n : ℕ) (rows : List OutboxRow)
      → IsByCreation created_at (select_rows created_at elsewhere n rows)
  unfolding select_rows
  select_rows-IsByCreation elsewhere n [] = tt
  select_rows-IsByCreation elsewhere n (row ∷ rows) =
      let rest = select_rows-IsByCreation elsewhere (suc n) rows in
      elim (Bool-cases (row.published || elsewhere n)) [
        | inl skip ↦ rw skip rest
        | inr open_ ↦ rw open_ (insert_by_creation-IsByCreation (n, row) _ rest)
      ]

  -- Where no other publisher has locked a row, the query selects just the rows that wait.
  pub select_rows-perm :
      (elsewhere : ℕ → Bool) (n : ℕ) (rows : List OutboxRow)
      → ((i : ℕ) → elsewhere i ≡ false)
      → Perm (select_rows created_at elsewhere n rows) (unpublished n rows)
  unfolding select_rows unpublished
  select_rows-perm elsewhere n [] free = Perm.refl []
  select_rows-perm elsewhere n (row ∷ rows) free =
      split row.published (elsewhere n) (free n) (select_rows-perm elsewhere (suc n) rows free)
    where
      rest : Dict OutboxRow
      rest = select_rows created_at elsewhere (suc n) rows

      split :
          (published locked : Bool)
          → locked ≡ false
          → Perm rest (unpublished (suc n) rows)
          → Perm
              (if published || locked then rest else insert_by_creation created_at (n, row) rest)
              (if published then unpublished (suc n) rows else (n, row) ∷ unpublished (suc n) rows)
      split true locked e h = h
      split false true e h = absurd (cc)
      split false false e h =
          Perm.trans (insert_by_creation-perm (n, row) rest) (Perm.cons (n, row) h)

  -- A property of all waiting rows holds of all that the query selects.
  pub All-select_rows :
      (P : ℕ × OutboxRow → Type 0) (elsewhere : ℕ → Bool) (n : ℕ) (rows : List OutboxRow)
      → All P (unpublished n rows)
      → All P (select_rows created_at elsewhere n rows)
  unfolding select_rows unpublished
  All-select_rows P elsewhere n [] h = tt
  All-select_rows P elsewhere n (row ∷ rows) h = elim (Bool-cases (row.published || elsewhere n)) [
    | inl skip ↦
        rw skip (All-select_rows P elsewhere (suc n) rows (tail (Bool-cases row.published)))
    | inr open_ ↦
        let parts = subst family (waits open_) h in
        rw open_ (
          All-insert_by_creation P (n, row) _ parts.0
            (All-select_rows P elsewhere (suc n) rows parts.1))
  ]
    where
      family : Bool → Type 0
      family b = All P (if b then unpublished (suc n) rows else (n, row) ∷ unpublished (suc n) rows)

      waits : row.published || elsewhere n ≡ false → row.published ≡ false
      waits e = ground arith

      tail : (row.published ≡ true) ⊎ (row.published ≡ false) → All P (unpublished (suc n) rows)
      tail (inl done) = subst family done h
      tail (inr waits') = (subst family waits' h).1

  insert_by_creation-fresh :
      (k : ℕ) (p : ℕ × OutboxRow) (qs : Dict OutboxRow)
      → k ≢ p.0
      → lookup k qs ≡ none
      → lookup k (insert_by_creation created_at p qs) ≡ none
  unfolding insert_by_creation lookup
  insert_by_creation-fresh k p [] ne h = ground arith
  insert_by_creation-fresh k p (q ∷ qs) ne h = ground (arith, insert_by_creation-fresh k p qs ne)

  insert_by_creation-Distinct :
      (p : ℕ × OutboxRow) (qs : Dict OutboxRow)
      → lookup p.0 qs ≡ none
      → Distinct qs
      → Distinct (insert_by_creation created_at p qs)
  unfolding insert_by_creation lookup
  insert_by_creation-Distinct p [] fresh h = (refl, tt)
  insert_by_creation-Distinct p (q ∷ qs) fresh h =
      elim (Bool-cases (leb (created_at p.0) (created_at q.0))) [
        | inl first ↦ rw first (fresh, h)
        | inr later ↦
            let ne : q.0 ≢ p.0 = λ e. ground arith in
            rw later (
              insert_by_creation-fresh q.0 p qs ne h.0,
              insert_by_creation-Distinct p qs (ground arith) h.1,
            )
      ]

  select_rows-fresh :
      (elsewhere : ℕ → Bool) (k n : ℕ) (rows : List OutboxRow)
      → k < n
      → lookup k (select_rows created_at elsewhere n rows) ≡ none
  unfolding select_rows lookup
  select_rows-fresh elsewhere k n [] h = refl
  select_rows-fresh elsewhere k n (row ∷ rows) h =
      let rest = select_rows-fresh elsewhere k (suc n) rows (omega arith) in
      elim (Bool-cases (row.published || elsewhere n)) [
        | inl skip ↦ rw skip rest
        | inr open_ ↦ rw open_ (insert_by_creation-fresh k (n, row) _ (λ e. omega arith) rest)
      ]

  -- The query selects each place once.
  pub select_rows-Distinct :
      (elsewhere : ℕ → Bool) (n : ℕ) (rows : List OutboxRow)
      → Distinct (select_rows created_at elsewhere n rows)
  unfolding select_rows
  select_rows-Distinct elsewhere n [] = tt
  select_rows-Distinct elsewhere n (row ∷ rows) =
      let rest = select_rows-Distinct elsewhere (suc n) rows in
      elim (Bool-cases (row.published || elsewhere n)) [
        | inl skip ↦ rw skip rest
        | inr open_ ↦
            let fresh = select_rows-fresh elsewhere n (suc n) rows (omega arith) in
            rw open_ (insert_by_creation-Distinct (n, row) _ fresh rest)
      ]
