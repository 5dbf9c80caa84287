-- ===== src/Common/Kafka/Consumer.antt =====
-- `BaseConsumer` of common/common/kafka/consumer.py and the table `processed_events` of
-- common/common/db/idempotency.py, over a service's own state S and payloads P.
use inventory_management_sys.Prelude.{
  ℕ, zero, suc, Bool, true, false, ◌||◌, List, [], ◌∷◌, Option, none, some, String, Uuid, ◌==◌, leb,
  if◌then◌else◌,
}
use inventory_management_sys.Common.Errors.{Error, Result, ok, err, ◌>>=◌}

-- common/common/events/envelope.py, without the time stamp and the version.
pub record Envelope (P : Type 0) : Type 0 where
  pub event_id : Uuid
  pub event_type : String
  pub correlation_id : Uuid
  pub causation_id : Option Uuid
  pub producer : String
  pub payload : P

-- The database of a service: its own tables and the event ids of `processed_events`.
pub record Store (S : Type 0) : Type 0 where
  pub state : S
  pub processed : List Uuid

-- A record of a partition; its value is what `EventEnvelope.from_bytes` makes of the bytes, `none`
-- where that raises.
pub record ConsumerRecord (P : Type 0) : Type 0 where
  pub topic : String
  pub partition : ℕ
  pub offset : ℕ
  pub key : Option String
  pub value : Option (Envelope P)

pub data Cause : Type 0 where
  undeserializable : Cause
  raised : Error → Cause

-- DeadLetterPayload, without the texts of the error and the raw message.
pub record DeadLetterPayload (P : Type 0) : Type 0 where
  pub original_topic : String
  pub original_partition : ℕ
  pub original_offset : ℕ
  pub original_key : Option String
  pub error : Cause
  pub attempts : ℕ
  pub original_event : Option (Envelope P)

-- `event_id in processed_events`
unfoldable pub already_processed : Uuid → List Uuid → Bool
already_processed event_id [] = false
already_processed event_id (x ∷ xs) = event_id == x || already_processed event_id xs

abbrev pub Handler : Type 0 → Type 0 → Type 0
Handler S P = Envelope P → S → Result S

-- What stops an attempt after its handler has run: a lost connection, the primary key of
-- `processed_events` against a concurrent duplicate, a commit that fails.
abbrev pub Fault : Type 0
Fault = Option Error

-- `mark_processed`, up to the end of the transaction
unfoldable pub mark_processed : {S : Type 0} → Fault → Uuid → List Uuid → S → Result (Store S)
mark_processed (some e) event_id processed s = err e
mark_processed none event_id processed s =
    ok (record { state = s; processed = event_id ∷ processed })

module _ {S P : Type 0} where
  -- `_dispatch`: one transaction, and whether the event was new. On an error the store is as before.
  unfoldable pub dispatch : Fault → Handler S P → Envelope P → Store S → Result (Bool × Store S)
  unfolding mark_processed
  dispatch fault handler e store =
      if already_processed e.event_id store.processed
      then ok (false, store)
      else (handler e store.state >>= λ s.
          mark_processed fault e.event_id store.processed s >>= λ t. ok (true, t))

-- How the loop over the attempts ends: by its `return`, by the last attempt's error, or, where it
-- has no round at all, by falling out of it.
pub data Attempted (S : Type 0) : Type 0 where
  handled : Store S → Attempted S
  gave_up : Error → ℕ → Attempted S
  fell_out : Attempted S

module _ {S P : Type 0} (max_retries : ℕ) (faults : ℕ → Fault) (handler : Handler S P)
    (e : Envelope P) where
  -- The rounds that are left of `for attempt in range(1, max_retries + 1)`.
  unfoldable pub attempts : ℕ → ℕ → Store S → Attempted S
  unfolding dispatch
  attempts zero attempt store = fell_out
  attempts (suc left) attempt store =
      let rest = attempts left (suc attempt) store in
      elim (dispatch (faults attempt) handler e store) [
        | ok done ↦ handled done.1
        | err x ↦ if leb max_retries attempt then gave_up x attempt else rest
      ]

-- The store, and the dead letters that were sent, the newest first.
pub record World (S P : Type 0) : Type 0 where
  pub store : Store S
  pub dead : List (DeadLetterPayload P)

unfoldable pub dead_letter_of :
    {P : Type 0} → ConsumerRecord P → Cause → ℕ → Option (Envelope P) → DeadLetterPayload P
dead_letter_of r cause n envelope = record {
  original_topic = r.topic;
  original_partition = r.partition;
  original_offset = r.offset;
  original_key = r.key;
  error = cause;
  attempts = n;
  original_event = envelope;
}

module _ {S P : Type 0} where
  -- `_dead_letter`: `none` where the send fails and the exception goes on to `run`.
  unfoldable pub dead_letter :
      Bool → ConsumerRecord P → Cause → ℕ → Option (Envelope P) → World S P → Option (World S P)
  unfolding dead_letter_of
  dead_letter false r cause n envelope w = none
  dead_letter true r cause n envelope w =
      some (record w { dead = dead_letter_of r cause n envelope ∷ w.dead })

  -- What follows the loop.
  unfoldable pub after_attempts :
      Bool → ConsumerRecord P → Envelope P → World S P → Attempted S → Option (World S P)
  unfolding dead_letter
  after_attempts broker_up r e w (handled store) = some (record w { store = store })
  after_attempts broker_up r e w (gave_up x n) =
      dead_letter broker_up r (Cause.raised x) n (some e) w
  after_attempts broker_up r e w fell_out = some w

  -- `_handle_record`
  unfoldable pub handle_record :
      ℕ
      → (String → Option (Handler S P))
      → (ℕ → Fault)
      → Bool
      → ConsumerRecord P
      → World S P
      → Option (World S P)
  unfolding dead_letter after_attempts attempts
  handle_record max_retries handlers faults broker_up r w = elim r.value [
    | none ↦ dead_letter broker_up r Cause.undeserializable 0 none w
    | some e ↦ elim (handlers e.event_type) [
      | none ↦ some w
      | some handler ↦
          after_attempts broker_up r e w
            (attempts max_retries faults handler e max_retries 1 w.store)
    ]
  ]
