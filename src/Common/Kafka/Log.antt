-- ===== src/Common/Kafka/Log.antt =====
-- `run` of common/common/kafka/consumer.py on one partition: a record is handled, then its offset is
-- committed; the process may die anywhere, and starts again from the last committed offset.
use inventory_management_sys.Prelude.{
  ℕ, zero, suc, ◌≡◌, List, [], ◌∷◌, Option, none, some, Bool, String,
}
use inventory_management_sys.Common.Kafka.Consumer.{
  ConsumerRecord, World, Handler, Fault, handle_record,
}

-- The record at an offset of the partition.
unfoldable pub record_at {ℓ} : {A : Type ℓ} → ℕ → List A → Option A
record_at n [] = none
record_at zero (r ∷ rs) = some r
record_at (suc n) (r ∷ rs) = record_at n rs

-- The consumer's position and the group's committed offset.
pub record Progress (S P : Type 0) : Type 0 where
  pub world : World S P
  pub position : ℕ
  pub committed : ℕ

module _ {S P : Type 0} (max_retries : ℕ) (handlers : String → Option (Handler S P))
    (log : List (ConsumerRecord P)) where
  pub data Step (a b : Progress S P) : Type 0 where
    -- `getone`, `_handle_record` and `commit`
    handles :
        (faults : ℕ → Fault) (broker_up : Bool) (r : ConsumerRecord P) (w : World S P)
        → record_at a.position log ≡ some r
        → handle_record max_retries handlers faults broker_up r a.world ≡ some w
        → b ≡ record { world = w; position = suc a.position; committed = suc a.position }
        → Step a b
    -- The dead letter could not be sent: `seek` back to the record.
    rewinds :
        (faults : ℕ → Fault) (r : ConsumerRecord P)
        → record_at a.position log ≡ some r
        → handle_record max_retries handlers faults Bool.false r a.world ≡ none
        → b ≡ a
        → Step a b
    -- The process dies after a record was handled and before its offset is committed, or between
    -- two records, and starts again.
    dies_late :
        (faults : ℕ → Fault) (broker_up : Bool) (r : ConsumerRecord P) (w : World S P)
        → record_at a.position log ≡ some r
        → handle_record max_retries handlers faults broker_up r a.world ≡ some w
        → b ≡ record { world = w; position = a.committed; committed = a.committed }
        → Step a b
    dies : b ≡ record a { position = a.committed } → Step a b

  -- From a service's first state on.
  pub data Reach (init : S) : Progress S P → Type 0 where
    here : Reach init (record {
      world = record { store = record { state = init; processed = [] }; dead = [] };
      position = 0;
      committed = 0;
    })
    next : {a b : Progress S P} → Reach init a → Step a b → Reach init b
