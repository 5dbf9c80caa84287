-- ===== src/Common/Outbox/Publisher.antt =====
-- `OutboxPublisher` of common/common/db/outbox.py: `_publish_batch` and `pending_count`.
use inventory_management_sys.Prelude.{
  ℕ, suc, ◌+◌, Bool, true, false, ◌||◌, leb, List, [], ◌∷◌, ◌++◌, length, take, none, some, Dict,
  lookup, Datetime, if◌then◌else◌,
}
use inventory_management_sys.Common.Outbox.{OutboxRow}

-- The outbox table of a service, and the messages that the broker has acknowledged, in their order.
pub record Relay : Type 0 where
  pub rows : List OutboxRow
  pub sent : List OutboxRow

unfoldable pub mark_published : OutboxRow → OutboxRow
mark_published row = record row { published = true }

unfoldable pub count_attempt : OutboxRow → OutboxRow
count_attempt row = record row { attempts = suc row.attempts }

-- ORDER BY created_at. The order of rows with one created_at is left to the database: here theirs is
-- that of their places.
unfoldable pub insert_by_creation : (ℕ → Datetime) → ℕ × OutboxRow → Dict OutboxRow → Dict OutboxRow
insert_by_creation created_at p [] = p ∷ []
insert_by_creation created_at p (q ∷ qs) =
    if leb (created_at p.0) (created_at q.0)
    then p ∷ q ∷ qs
    else q ∷ insert_by_creation created_at p qs

-- The query without its limit, over the rows at the places n, n + 1 and so on, each with its place:
-- those that are unpublished and that no other publisher has locked.
unfoldable pub select_rows : (ℕ → Datetime) → (ℕ → Bool) → ℕ → List OutboxRow → Dict OutboxRow
unfolding insert_by_creation
select_rows created_at elsewhere n [] = []
select_rows created_at elsewhere n (row ∷ rows) =
    let rest = select_rows created_at elsewhere (suc n) rows in
    if row.published || elsewhere n then rest else insert_by_creation created_at (n, row) rest

-- The loop over the selected rows: what the broker acknowledges, in the order of the sends. `accepts`
-- says for which places the send succeeds.
unfoldable pub send_rows : (ℕ → Bool) → Dict OutboxRow → List OutboxRow
send_rows accepts [] = []
send_rows accepts ((n, row) ∷ picked) =
    let rest = send_rows accepts picked in if accepts n then row ∷ rest else rest

-- A selected row as the loop and the update after it leave it.
unfoldable pub written : Bool → OutboxRow → OutboxRow
unfolding mark_published count_attempt
written true row = mark_published row
written false row = count_attempt row

-- The table from the place n on with the selected rows as they are left.
unfoldable pub write_rows : (ℕ → Bool) → Dict OutboxRow → ℕ → List OutboxRow → List OutboxRow
unfolding written lookup
write_rows accepts picked n [] = []
write_rows accepts picked n (row ∷ rows) =
    elim (lookup n picked) [ none ↦ row | some found ↦ written (accepts n) found ]
    ∷ write_rows accepts picked (suc n) rows

-- The body of the transaction: the rows as it leaves them, and the messages that were sent.
unfoldable pub publish_rows :
    (ℕ → Datetime) → (ℕ → Bool) → (ℕ → Bool) → ℕ → List OutboxRow → List OutboxRow × List OutboxRow
unfolding select_rows send_rows write_rows
publish_rows created_at elsewhere accepts limit rows =
    let picked = take limit (select_rows created_at elsewhere 0 rows) in
    (write_rows accepts picked 0 rows, send_rows accepts picked)

-- `_publish_batch`: how many were published, and the state when its transaction commits.
-- `created_at` says of each place when its row was inserted: the database's now(), which is the start
-- of the transaction that inserted it.
unfoldable pub publish_batch : (ℕ → Datetime) → (ℕ → Bool) → (ℕ → Bool) → ℕ → Relay → ℕ × Relay
publish_batch created_at elsewhere accepts batch_size s =
    let done = publish_rows created_at elsewhere accepts batch_size s.rows in
    (length done.1, record { rows = done.0; sent = s.sent ++ done.1 })

-- The same where the transaction fails to commit: what was sent stays sent.
unfoldable pub publish_batch_lost : (ℕ → Datetime) → (ℕ → Bool) → (ℕ → Bool) → ℕ → Relay → Relay
publish_batch_lost created_at elsewhere accepts batch_size s = record s {
  sent = s.sent ++ (publish_rows created_at elsewhere accepts batch_size s.rows).1;
}

-- `pending_count`
unfoldable pub pending_count : List OutboxRow → ℕ
pending_count [] = 0
pending_count (row ∷ rows) = (if row.published then 0 else 1) + pending_count rows
