-- ===== src/Common/Kafka/Committed.antt =====
-- No record is lost in common/common/kafka/consumer.py: every offset that is committed stands for a
-- record that was handled or parked.
use inventory_management_sys.Prelude.{
  ℕ, zero, suc, ◌+◌, ◌≡◌, ◌≢◌, ◌⊎◌, inl, inr, Bool, true, List, [], ◌∷◌, Option, none, some, String,
  Uuid, leb, arith, Bool-cases, Option-cases,
}
use inventory_management_sys.Common.Errors.{ok, Result-cases}
use inventory_management_sys.Common.Kafka.Consumer.{
  Envelope, Store, ConsumerRecord, DeadLetterPayload, already_processed, Handler, Fault, dispatch,
  handled, fell_out, attempts, World,
}

-- Some dead letter is about this record.
abbrev pub Lettered : {P : Type 0} → ConsumerRecord P → List (DeadLetterPayload P) → Type 0
Lettered r [] = ⊥
Lettered r (d ∷ ds) =
    ((d.original_topic ≡ r.topic)
      × (d.original_partition ≡ r.partition)
      × (d.original_offset ≡ r.offset)
      × (d.original_event ≡ r.value))
    ⊎ Lettered r ds

-- What grows.
pub record Grows {S P : Type 0} (w t : World S P) : Type 0 where
  pub marks :
      (i : Uuid)
      → already_processed i w.store.processed ≡ true
      → already_processed i t.store.processed ≡ true
  pub letters : (r : ConsumerRecord P) → Lettered r w.dead → Lettered r t.dead

module _ {S P : Type 0} (handlers : String → Option (Handler S P)) where
  -- The record has a dead letter, or no handler, or its event is marked as processed.
  abbrev pub Accounted : World S P → ConsumerRecord P → Type 0
  Accounted w r =
      Lettered r w.dead
      ⊎ ((e : Envelope P) × (r.value ≡ some e)
          × ((handlers e.event_type ≡ none)
              ⊎ (already_processed e.event_id w.store.processed ≡ true)))

  pub Grows-Accounted :
      (w t : World S P) (r : ConsumerRecord P) → Grows w t → Accounted w r → Accounted t r
  Grows-Accounted w t r g (inl d) = inl (g.letters r d)
  Grows-Accounted w t r g (inr (e, v, inl unknown)) = inr (e, v, inl unknown)
  Grows-Accounted w t r g (inr (e, v, inr marked)) = inr (e, v, inr (g.marks e.event_id marked))

  module _ (e : Envelope P) (handler : Handler S P) where
    -- A dispatch that commits leaves the event marked, and what was marked.
    dispatch-marks :
        (fault : Fault) (new : Bool) (store t : Store S)
        → dispatch fault handler e store ≡ ok (new, t)
        → (already_processed e.event_id t.processed ≡ true)
          × ((i : Uuid)
              → already_processed i store.processed ≡ true
              → already_processed i t.processed ≡ true)
    unfolding dispatch already_processed
    dispatch-marks fault new store t done =
        elim (Bool-cases (already_processed e.event_id store.processed)) [
          | inl old ↦ let same : store ≡ t = ground arith in rw (← same) (old, λ i h. h)
          | inr fresh ↦ elim (Result-cases (handler e store.state)) [
            | inr (x, failed) ↦ absurd (ground arith)
            | inl (s, ran_to) ↦ elim (Option-cases fault) [
              | inr (x, broken) ↦ absurd (ground arith)
              | inl fine ↦
                  let u : Store S = record {
                    state = s;
                    processed = e.event_id ∷ store.processed;
                  } in
                  let same : u ≡ t = ground arith in rw (← same) (ground arith, λ i h. ground arith)
            ]
          ]
        ]

    pub attempts-marks :
        (max_retries : ℕ) (faults : ℕ → Fault) (left attempt : ℕ) (store t : Store S)
        → attempts max_retries faults handler e left attempt store ≡ handled t
        → (already_processed e.event_id t.processed ≡ true)
          × ((i : Uuid)
              → already_processed i store.processed ≡ true
              → already_processed i t.processed ≡ true)
    unfolding attempts
    attempts-marks max_retries faults zero attempt store t done = absurd (cc)
    attempts-marks max_retries faults (suc left) attempt store t done =
        elim (Result-cases (dispatch (faults attempt) handler e store)) [
          | inl ((new, u), went) ↦
              let same : u ≡ t = ground arith in
              rw (← same) (dispatch-marks (faults attempt) new store u went)
          | inr (x, failed) ↦ elim (Bool-cases (leb max_retries attempt)) [
            | inl last ↦ absurd (ground arith)
            | inr more ↦ attempts-marks max_retries faults left (suc attempt) store t (ground arith)
          ]
        ]

    -- With a round for each attempt up to the last, the loop does not fall out.
    pub attempts-ne-fell_out :
        (max_retries : ℕ) (faults : ℕ → Fault) (left attempt : ℕ) (store : Store S)
        → max_retries ≡ attempt + left
        → attempts max_retries faults handler e (suc left) attempt store ≢ fell_out
    unfolding attempts
    attempts-ne-fell_out max_retries faults zero attempt store h out =
        elim (Result-cases (dispatch (faults attempt) handler e store)) [
          | inl (done, went) ↦ absurd (ground arith)
          | inr (x, failed) ↦ absurd (ground arith)
        ]
    attempts-ne-fell_out max_retries faults (suc left) attempt store h out =
        elim (Result-cases (dispatch (faults attempt) handler e store)) [
          | inl (done, went) ↦ absurd (ground arith)
          | inr (x, failed) ↦ elim (Bool-cases (leb max_retries attempt)) [
            | inl last ↦ absurd (ground arith)
            | inr more ↦
                attempts-ne-fell_out max_retries faults left (suc attempt) store (omega arith)
                  (ground arith)
          ]
        ]
