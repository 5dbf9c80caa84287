-- ===== src/Common/Outbox/Delivery.antt =====
-- What the publisher of common/common/db/outbox.py promises: at least once, and how far in order.
use inventory_management_sys.Prelude.{
  ℕ, suc, ◌≡◌, refl, ap, subst, ◌⊎◌, inl, inr, Bool, true, false, List, [], ◌∷◌, ◌++◌, take, All,
  Option, none, some, ◌==◌, Dict, lookup, Uuid, Datetime, arith, Bool-cases,
}
use inventory_management_sys.Common.Events.{Topic, Payload}
use inventory_management_sys.Common.Outbox.{OutboxRow, enqueue_event}
use inventory_management_sys.Common.Outbox.Publisher.{
  Relay, mark_published, count_attempt, written, select_rows, send_rows, write_rows, publish_rows,
  publish_batch, publish_batch_lost,
}
use inventory_management_sys.Common.Outbox.Selection.{unpublished, All-take, All-select_rows}

-- Some message has the row's topic, key and payload.
abbrev pub IsSent : List OutboxRow → OutboxRow → Type 0
IsSent [] row = ⊥
IsSent (m ∷ ms) row =
    ((m.topic ≡ row.topic) × (m.partition_key ≡ row.partition_key) × (m.payload ≡ row.payload))
    ⊎ IsSent ms row

-- Every row that is marked as published was sent.
abbrev pub AllSent : List OutboxRow → List OutboxRow → Type 0
AllSent sent [] = Unit
AllSent sent (row ∷ rows) = (row.published ≡ true → IsSent sent row) × AllSent sent rows

IsSent-append_left :
    (xs ys : List OutboxRow) (row : OutboxRow) → IsSent xs row → IsSent (xs ++ ys) row
IsSent-append_left [] ys row h = elim h [ ]
IsSent-append_left (x ∷ xs) ys row (inl e) = inl e
IsSent-append_left (x ∷ xs) ys row (inr h) = inr (IsSent-append_left xs ys row h)

IsSent-append_right :
    (xs ys : List OutboxRow) (row : OutboxRow) → IsSent ys row → IsSent (xs ++ ys) row
IsSent-append_right [] ys row h = h
IsSent-append_right (x ∷ xs) ys row h = inr (IsSent-append_right xs ys row h)

-- The mark changes neither topic, key nor payload.
IsSent-published :
    (xs : List OutboxRow) (row : OutboxRow)
    → IsSent xs row
    → IsSent xs (record row { published = true })
IsSent-published [] row h = elim h [ ]
IsSent-published (x ∷ xs) row (inl e) = inl e
IsSent-published (x ∷ xs) row (inr h) = inr (IsSent-published xs row h)

All-lookup :
    (n : ℕ) (row : OutboxRow) (picked : Dict OutboxRow)
    → All (λ p. p.1.published ≡ false) picked
    → lookup n picked ≡ some row
    → row.published ≡ false
unfolding lookup
All-lookup n row [] h e = absurd (cc)
All-lookup n row ((k, r) ∷ picked) h e = elim (Bool-cases (n == k)) [
  | inl here ↦ let same : r ≡ row = ground arith in subst (λ x. x.published ≡ false) same h.0
  | inr there ↦ All-lookup n row picked h.1 (ground arith)
]

AllSent-more :
    (xs ys rows : List OutboxRow)
    → ((row : OutboxRow) → IsSent xs row → IsSent ys row)
    → AllSent xs rows
    → AllSent ys rows
AllSent-more xs ys [] f h = tt
AllSent-more xs ys (row ∷ rows) f h = (λ e. f row (h.0 e), AllSent-more xs ys rows f h.1)

unpublished-waits :
    (n : ℕ) (rows : List OutboxRow) → All (λ p. p.1.published ≡ false) (unpublished n rows)
unfolding unpublished
unpublished-waits n [] = tt
unpublished-waits n (row ∷ rows) = elim (Bool-cases row.published) [
  | inl done ↦ rw done (unpublished-waits (suc n) rows)
  | inr waits ↦ rw waits (refl, unpublished-waits (suc n) rows)
]

-- The rows that the query selects are not published.
select_rows-unpublished :
    (created_at : ℕ → Datetime) (elsewhere : ℕ → Bool) (n : ℕ) (rows : List OutboxRow)
    → All (λ p. p.1.published ≡ false) (select_rows created_at elsewhere n rows)
select_rows-unpublished created_at elsewhere n rows =
    All-select_rows created_at (λ p. p.1.published ≡ false) elsewhere n rows
      (unpublished-waits n rows)

-- What the broker accepts of the selected rows is sent.
send_rows-IsSent :
    (accepts : ℕ → Bool) (n : ℕ) (row : OutboxRow) (picked : Dict OutboxRow)
    → lookup n picked ≡ some row
    → accepts n ≡ true
    → IsSent (send_rows accepts picked) row
unfolding send_rows lookup
send_rows-IsSent accepts n row [] e up = absurd (cc)
send_rows-IsSent accepts n row ((k, r) ∷ picked) e up = elim (Bool-cases (n == k)) [
  | inl here ↦
      let same : r ≡ row = ground arith in
      let at : n ≡ k = ground arith in
      let taken : accepts k ≡ true = subst (λ i. accepts i ≡ true) at up in
      rw taken
        (inl (ap (λ x. x.topic) same, ap (λ x. x.partition_key) same, ap (λ x. x.payload) same))
  | inr there ↦
      let rest = send_rows-IsSent accepts n row picked (ground arith) up in
      elim (Bool-cases (accepts k)) [ inl taken ↦ rw taken (inr rest) | inr lost ↦ rw lost rest ]
]

-- A selected row that is left published was sent.
written-IsSent :
    (accepts : ℕ → Bool) (accepted : Bool) (n : ℕ) (row : OutboxRow) (picked : Dict OutboxRow)
    → All (λ p. p.1.published ≡ false) picked
    → lookup n picked ≡ some row
    → accepts n ≡ accepted
    → (written accepted row).published ≡ true
    → IsSent (send_rows accepts picked) (written accepted row)
unfolding written mark_published count_attempt
written-IsSent accepts true n row picked waits e up published =
    IsSent-published _ row (send_rows-IsSent accepts n row picked e up)
written-IsSent accepts false n row picked waits e down published =
    absurd (cc (All-lookup n row picked waits e))

-- The row at the place n as a pass leaves it.
abbrev left : (ℕ → Bool) → ℕ → OutboxRow → Option OutboxRow → OutboxRow
left accepts n row none = row
left accepts n row (some found) = written (accepts n) found

left-IsSent :
    (accepts : ℕ → Bool) (picked : Dict OutboxRow) (n : ℕ) (sent : List OutboxRow) (row : OutboxRow)
    (found : Option OutboxRow)
    → All (λ p. p.1.published ≡ false) picked
    → lookup n picked ≡ found
    → (row.published ≡ true → IsSent sent row)
    → (left accepts n row found).published ≡ true
    → IsSent (sent ++ send_rows accepts picked) (left accepts n row found)
left-IsSent accepts picked n sent row none waits e h published =
    IsSent-append_left sent _ row (h published)
left-IsSent accepts picked n sent row (some r) waits e h published =
    IsSent-append_right sent _ _
      (written-IsSent accepts (accepts n) n r picked waits e refl published)

-- If the selected rows are not published, only rows are left published that were, or that were
-- sent.
write_rows-AllSent :
    (accepts : ℕ → Bool) (picked : Dict OutboxRow) (n : ℕ) (sent rows : List OutboxRow)
    → All (λ p. p.1.published ≡ false) picked
    → AllSent sent rows
    → AllSent (sent ++ send_rows accepts picked) (write_rows accepts picked n rows)
unfolding write_rows
write_rows-AllSent accepts picked n sent [] waits h = tt
write_rows-AllSent accepts picked n sent (row ∷ rows) waits h = (
  left-IsSent accepts picked n sent row (lookup n picked) waits refl h.0,
  write_rows-AllSent accepts picked (suc n) sent rows waits h.1,
)

-- The history of one outbox table: transactions enqueue, and publishers' passes commit or fail to.
pub data Step (s t : Relay) : Type 0 where
  enqueues :
      (topic : Topic) (key : Uuid) (payload : Payload) (aggregate_id : Uuid)
      → t ≡ record s { rows = enqueue_event topic key payload aggregate_id s.rows }
      → Step s t
  publishes :
      (created_at : ℕ → Datetime) (elsewhere accepts : ℕ → Bool) (batch_size : ℕ)
      → t ≡ (publish_batch created_at elsewhere accepts batch_size s).1
      → Step s t
  publishes_lost :
      (created_at : ℕ → Datetime) (elsewhere accepts : ℕ → Bool) (batch_size : ℕ)
      → t ≡ publish_batch_lost created_at elsewhere accepts batch_size s
      → Step s t

pub data Reach : Relay → Type 0 where
  here : Reach (record { rows = []; sent = [] })
  next : {s t : Relay} → Reach s → Step s t → Reach t

enqueue_event-AllSent :
    (topic : Topic) (key : Uuid) (payload : Payload) (a : Uuid) (sent rows : List OutboxRow)
    → AllSent sent rows
    → AllSent sent (enqueue_event topic key payload a rows)
unfolding enqueue_event
enqueue_event-AllSent topic key payload a sent [] h = (λ e. absurd (cc), tt)
enqueue_event-AllSent topic key payload a sent (row ∷ rows) h =
    (h.0, enqueue_event-AllSent topic key payload a sent rows h.1)

-- After any sequence of enqueued events and publishers' passes, whose transactions commit or fail
-- to, every row of the outbox that is marked as published was sent: some message has its topic,
-- key and payload.
pub Reach-AllSent : {s : Relay} → Reach s → AllSent s.sent s.rows
unfolding publish_batch publish_batch_lost publish_rows
Reach-AllSent here = tt
Reach-AllSent (next {s} before (enqueues topic key payload a e)) =
    rw e (enqueue_event-AllSent topic key payload a s.sent s.rows (Reach-AllSent before))
Reach-AllSent (next {s} before (publishes created_at elsewhere accepts limit e)) = rw e (
    write_rows-AllSent accepts (take limit (select_rows created_at elsewhere 0 s.rows)) 0 s.sent
      s.rows
      (All-take (λ p. p.1.published ≡ false) limit (select_rows created_at elsewhere 0 s.rows)
        (select_rows-unpublished created_at elsewhere 0 s.rows))
      (Reach-AllSent before))
Reach-AllSent (next {s} before (publishes_lost created_at elsewhere accepts limit e)) =
    rw e (AllSent-more s.sent _ s.rows (λ x. IsSent-append_left s.sent _ x) (Reach-AllSent before))
