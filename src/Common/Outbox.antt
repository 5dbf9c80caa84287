-- ===== src/Common/Outbox.antt =====
-- The outbox table and `enqueue_event`: common/common/db/outbox.py. A table lists its rows in the
-- order of their inserts, and the row's place stands for its id.
pub mod Publisher
pub mod Selection
pub mod Drain
pub mod Delivery
pub mod InOrder
mod Tests
use inventory_management_sys.Prelude.{ℕ, Bool, false, List, [], ◌∷◌, ◌++◌, Uuid}
use inventory_management_sys.Common.Events.{Topic, Payload}

-- `published` says whether `published_at` is set. `created_at` is an argument of the publisher, by
-- the row's place; `last_error`, which no code reads, is left out.
pub record OutboxRow : Type 0 where
  pub aggregate_id : Uuid
  pub topic : Topic
  pub partition_key : Uuid
  pub payload : Payload
  pub attempts : ℕ
  pub published : Bool

unfoldable pub enqueue_event : Topic → Uuid → Payload → Uuid → List OutboxRow → List OutboxRow
enqueue_event topic key payload aggregate_id rows =
    rows
    ++ record {
      aggregate_id = aggregate_id;
      topic = topic;
      partition_key = key;
      payload = payload;
      attempts = 0;
      published = false;
    }
      ∷ []
