-- ===== src/Common/Outbox/Tests.antt =====
-- The publisher of common/common/db/outbox.py on two events of one order.
use mathlib.Core.List.{Perm}
use inventory_management_sys.Prelude.{
  ℕ, ◌-◌, ◌≡◌, refl, true, false, [], ◌∷◌, ◌++◌, map, length, ◌==◌, Dict, lookup, Datetime, arith,
}
use inventory_management_sys.Common.Events.{Topic, Payload}
use inventory_management_sys.Common.Outbox.{OutboxRow, enqueue_event}
use inventory_management_sys.Common.Outbox.Publisher.{
  Relay, mark_published, count_attempt, written, insert_by_creation, select_rows, send_rows,
  write_rows, publish_rows, publish_batch, publish_batch_lost, pending_count,
}
use inventory_management_sys.Common.Outbox.Delivery.{
  AllSent, Reach, enqueues, publishes, publishes_lost, here, next, Reach-AllSent,
}
use inventory_management_sys.Common.Outbox.Selection.{unpublished, IsByCreation}
use inventory_management_sys.Common.Outbox.InOrder.{
  publish_batch-in_order, publish_batch_out_of_order,
}

abbrev no_stock : Payload
no_stock =
    Payload.reservation_failed
      (record { order_id = 100; user_id = 7; reason = "out of stock"; insufficient_items = [] })

abbrev row_of : Topic → OutboxRow
row_of topic = record {
  aggregate_id = 100;
  topic = topic;
  partition_key = 100;
  payload = no_stock;
  attempts = 0;
  published = false;
}

abbrev first : OutboxRow
first = row_of Topic.inventory_reserved

abbrev second : OutboxRow
second = row_of Topic.inventory_reservation_failed

abbrev waiting : Relay
waiting = record { rows = first ∷ second ∷ []; sent = [] }

-- One pass is sent and not committed, and the next one sends again.
abbrev relayed : Relay
relayed = record {
  rows = record first { published = true } ∷ record second { published = true } ∷ [];
  sent = first ∷ second ∷ first ∷ second ∷ [];
}

relayed-Reach : Reach relayed
unfolding enqueue_event publish_batch publish_batch_lost publish_rows select_rows insert_by_creation
    send_rows write_rows written mark_published lookup
relayed-Reach =
    next {s = record waiting { sent = first ∷ second ∷ [] }}
      (next {s = waiting}
        (next {s = record { rows = first ∷ []; sent = [] }}
          (next here (enqueues Topic.inventory_reserved 100 no_stock 100 refl))
          (enqueues Topic.inventory_reservation_failed 100 no_stock 100 refl))
        (publishes_lost (λ i. i) (λ _. false) (λ _. true) 10 refl))
      (publishes (λ i. i) (λ _. false) (λ _. true) 10 refl)

Reach-AllSent_example : AllSent relayed.sent relayed.rows
Reach-AllSent_example = Reach-AllSent relayed-Reach

-- The row at the second place was created first.
abbrev created_at : ℕ → Datetime
created_at i = 10 - i

publish_batch-in_order_example :
    let done = publish_batch created_at (λ _. false) (λ _. true) 1 waiting in
    (picked : Dict OutboxRow) × (rest : Dict OutboxRow) × Perm
      (picked ++ rest)
      (unpublished 0 waiting.rows)
    × IsByCreation created_at (picked ++ rest)
    × (length rest ≡ pending_count waiting.rows - 1)
    × (done.0 ≡ length picked)
    × (done.1.sent ≡ waiting.sent ++ map (λ p. p.1) picked)
    × (pending_count done.1.rows ≡ length rest)
publish_batch-in_order_example =
    publish_batch-in_order created_at (λ _. false) (λ _. true) 1 waiting (λ i. refl) (λ i. refl)

-- The pass sends the older row, which stands at the second place.
older_first : (publish_batch created_at (λ _. false) (λ _. true) 1 waiting).1.sent ≡ second ∷ []
unfolding publish_batch publish_rows select_rows insert_by_creation send_rows
older_first = refl

publish_batch_out_of_order_example :
    let t = (publish_batch created_at (λ _. false) (λ i. i == 1) 10 waiting).1 in
    (publish_batch created_at (λ _. false) (λ _. true) 10 t).1.sent
    ≡ ([] ++ second ∷ []) ++ count_attempt first ∷ []
publish_batch_out_of_order_example =
    publish_batch_out_of_order created_at first second 10 [] refl refl (omega arith)
