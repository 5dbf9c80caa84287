-- ===== src/Common/Outbox/InOrder.antt =====
-- In which order `_publish_batch` of common/common/db/outbox.py sends, and how it drains the table.
use mathlib.Core.List.{Perm}
use inventory_management_sys.Prelude.{
  ℕ, zero, suc, ◌+◌, ◌-◌, ◌≤◌, ◌≡◌, refl, ap, subst, ◌∙◌, sym, Bool, true, false, List, [], ◌∷◌,
  ◌++◌, map, length, take, Dict, Datetime, lookup, arith, ◌==◌, leb, inl, inr, Bool-cases,
}
use inventory_management_sys.Common.Outbox.{OutboxRow}
use inventory_management_sys.Common.Outbox.Publisher.{
  Relay, mark_published, count_attempt, written, insert_by_creation, select_rows, send_rows,
  write_rows, publish_rows, publish_batch, pending_count,
}
use inventory_management_sys.Common.Outbox.Selection.{
  unpublished, IsByCreation, select_rows-IsByCreation, select_rows-perm,
}
use inventory_management_sys.Common.Outbox.Drain.{select_rows-pending, length-select_rows}

-- The first rows of the query and the others.
take-rest :
    (n : ℕ) (ps : Dict OutboxRow)
    → (rest : Dict OutboxRow) × (take n ps ++ rest ≡ ps)
      × (length rest ≡ length ps - n)
      × (length (take n ps) + length rest ≡ length ps)
take-rest zero ps = (ps, refl, omega arith, omega arith)
take-rest (suc n) [] = ([], refl, omega arith, omega arith)
take-rest (suc n) (p ∷ ps) =
    let (rest, whole, left, count) = take-rest n ps in
    (rest, ap (λ qs. p ∷ qs) whole, omega (arith, left), omega (arith, count))

send_rows-all :
    (accepts : ℕ → Bool) (picked : Dict OutboxRow)
    → ((i : ℕ) → accepts i ≡ true)
    → send_rows accepts picked ≡ map (λ p. p.1) picked
unfolding send_rows
send_rows-all accepts [] up = refl
send_rows-all accepts ((n, row) ∷ picked) up =
    rw (up n) (ap (λ rows. row ∷ rows) (send_rows-all accepts picked up))

length-map :
    (picked : Dict OutboxRow) → length (map {B = OutboxRow} (λ p. p.1) picked) ≡ length picked
length-map [] = refl
length-map (p ∷ picked) = ap suc (length-map picked)

-- If no other publisher has locked a row and the broker takes every message, the rows that wait
-- fall into those that a pass picks and a rest, with none created before one that stands in front
-- of it, the picked ones first: the pass sends just the picked rows, in that order, and counts
-- them, the rest is what waits beyond the batch size, and as many rows as it has still wait
-- afterwards.
pub publish_batch-in_order :
    (created_at : ℕ → Datetime) (elsewhere accepts : ℕ → Bool) (batch_size : ℕ) (s : Relay)
    → ((i : ℕ) → elsewhere i ≡ false)
    → ((i : ℕ) → accepts i ≡ true)
    → let done = publish_batch created_at elsewhere accepts batch_size s in
      (picked : Dict OutboxRow) × (rest : Dict OutboxRow) × Perm
        (picked ++ rest)
        (unpublished 0 s.rows)
      × IsByCreation created_at (picked ++ rest)
      × (length rest ≡ pending_count s.rows - batch_size)
      × (done.0 ≡ length picked)
      × (done.1.sent ≡ s.sent ++ map (λ p. p.1) picked)
      × (pending_count done.1.rows ≡ length rest)
unfolding publish_batch publish_rows
publish_batch-in_order created_at elsewhere accepts batch_size s free up =
    let selected = select_rows created_at elsewhere 0 s.rows in
    let picked = take batch_size selected in
    let (rest, whole, left, count) = take-rest batch_size selected in
    let waiting = length-select_rows created_at elsewhere 0 s.rows free in
    let drained = select_rows-pending created_at elsewhere accepts batch_size s.rows up in
    let sent = send_rows-all accepts picked up in
    (
      picked,
      rest,
      subst (λ ps. Perm ps (unpublished 0 s.rows)) (sym whole)
          (select_rows-perm created_at elsewhere 0 s.rows free),
      subst (IsByCreation created_at) (sym whole)
          (select_rows-IsByCreation created_at elsewhere 0 s.rows),
      omega (arith, left, waiting),
      ap length sent ∙ length-map picked,
      ap (λ x. s.sent ++ x) sent,
      omega (arith, count, waiting, drained),
    )

take_nil : (n : ℕ) → take {A = ℕ × OutboxRow} n [] ≡ []
take_nil zero = refl
take_nil (suc n) = refl

-- If an outbox consists of two waiting rows, no other publisher has locked one, and the broker
-- refuses the first and takes the second, the pass goes on to the second, and a next pass in which
-- the broker takes all sends the first after it, whatever their keys and whenever they were
-- created; the batch size is at least two.
pub publish_batch_out_of_order :
    (created_at : ℕ → Datetime) (first second : OutboxRow) (batch_size : ℕ) (sent : List OutboxRow)
    → first.published ≡ false
    → second.published ≡ false
    → 2 ≤ batch_size
    → let s : Relay = record { rows = first ∷ second ∷ []; sent = sent } in
      let t = (publish_batch created_at (λ _. false) (λ i. i == 1) batch_size s).1 in
      (publish_batch created_at (λ _. false) (λ _. true) batch_size t).1.sent
      ≡ (sent ++ second ∷ []) ++ count_attempt first ∷ []
unfolding publish_batch publish_rows select_rows insert_by_creation send_rows write_rows written
    mark_published count_attempt lookup
publish_batch_out_of_order created_at first second zero sent p q h = absurd (omega arith)
publish_batch_out_of_order created_at first second (suc zero) sent p q h = absurd (omega arith)
publish_batch_out_of_order created_at first second (suc (suc n)) sent p q h =
    elim (Bool-cases (leb (created_at 0) (created_at 1))) [
      | inl older ↦ simp (p, q, older, take_nil n)
      | inr newer ↦ simp (p, q, newer, take_nil n)
    ]
