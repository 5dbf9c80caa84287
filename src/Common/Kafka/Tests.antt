-- ===== src/Common/Kafka/Tests.antt =====
-- common/common/kafka/consumer.py on a partition that holds one event twice and a message that
-- cannot be read, for a service that counts.
use inventory_management_sys.Prelude.{
  ℕ, ◌+◌, ◌≡◌, refl, true, List, [], ◌∷◌, Option, none, some, String, ◌==◌, if◌then◌else◌, arith,
}
use text.Mathlib.Text.{◌==◌ as str_eq}
use inventory_management_sys.Common.Errors.{Error, ok}
use inventory_management_sys.Common.Kafka.Consumer.{
  Envelope, ConsumerRecord, Cause, Handler, Fault, World, already_processed, mark_processed,
  dispatch, attempts, dead_letter_of, dead_letter, after_attempts, handle_record,
}
use inventory_management_sys.Common.Kafka.Log.{
  record_at, Progress, Reach, handles, dies_late, here, next,
}
use inventory_management_sys.Common.Kafka.Once.{RanOnce, Reach-RanOnce}
use inventory_management_sys.Common.Kafka.Committed.{Accounted}
use inventory_management_sys.Common.Kafka.Parked.{committed-Accounted}

abbrev handlers : String → Option (Handler ℕ ℕ)
handlers event_type =
    if str_eq event_type "count.up" then some (λ e n. ok (n + e.payload)) else none

abbrev event : Envelope ℕ
event = record {
  event_id = 71;
  event_type = "count.up";
  correlation_id = 5;
  causation_id = none;
  producer = "tests";
  payload = 3;
}

abbrev record_of : ℕ → Option (Envelope ℕ) → ConsumerRecord ℕ
record_of offset value = record {
  topic = "count.up";
  partition = 0;
  offset = offset;
  key = none;
  value = value;
}

abbrev log : List (ConsumerRecord ℕ)
log = record_of 0 (some event) ∷ record_of 1 none ∷ record_of 2 (some event) ∷ []

-- The first attempt at the event loses its connection.
abbrev faults : ℕ → Fault
faults attempt = if attempt == 1 then some Error.data_error else none

abbrev counted : World ℕ ℕ
counted = record { store = record { state = 3; processed = 71 ∷ [] }; dead = [] }

abbrev parked : World ℕ ℕ
parked = record counted {
  dead = dead_letter_of (record_of 1 none) Cause.undeserializable 0 none ∷ [];
}

abbrev at : World ℕ ℕ → ℕ → ℕ → Progress ℕ ℕ
at w position committed = record { world = w; position = position; committed = committed }

-- The event is handled, its offset is lost, it is delivered again, and then the rest.
run : Reach 3 handlers log 0 (at parked 3 3)
unfolding handle_record attempts dispatch mark_processed already_processed dead_letter
    after_attempts record_at dead_letter_of
run =
    next {a = at parked 2 2}
      (next {a = at counted 1 1}
        (next {a = at counted 0 0}
          (next here (dies_late faults true (record_of 0 (some event)) counted refl refl refl))
          (handles (λ _. none) true (record_of 0 (some event)) counted refl refl refl))
        (handles (λ _. none) true (record_of 1 none) parked refl refl refl))
      (handles (λ _. none) true (record_of 2 (some event)) parked refl refl refl)

Reach-RanOnce_example : RanOnce handlers 0 parked.store
Reach-RanOnce_example = Reach-RanOnce handlers 0 3 log run

second_record : record_at 1 log ≡ some (record_of 1 none)
unfolding record_at
second_record = refl

committed-Accounted_example : Accounted handlers parked (record_of 1 none)
committed-Accounted_example =
    committed-Accounted handlers 3 (λ e. absurd (cc)) log 1 (record_of 1 none) run (omega arith)
      second_record
