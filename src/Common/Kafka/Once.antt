-- ===== src/Common/Kafka/Once.antt =====
-- However often records are redelivered in common/common/kafka/consumer.py, each event's handler takes
-- effect once.
use inventory_management_sys.Prelude.{
  ℕ, zero, suc, ◌≡◌, refl, subst, sym, inl, inr, Bool, true, false, List, [], ◌∷◌, Option, none,
  some, String, Uuid, leb, arith, Bool-cases, Option-cases,
}
use inventory_management_sys.Common.Errors.{ok, Result-cases}
use inventory_management_sys.Common.Kafka.Consumer.{
  Envelope, Store, ConsumerRecord, Cause, already_processed, Handler, Fault, dispatch, Attempted,
  handled, gave_up, fell_out, attempts, World, dead_letter, after_attempts, handle_record,
}
use inventory_management_sys.Common.Kafka.Log.{
  Progress, Step, Reach, handles, rewinds, dies_late, dies, here, next,
}

module _ {S P : Type 0} (handlers : String → Option (Handler S P)) (init : S) where
  -- The state after the handlers of these events, the last one first, each once.
  pub data Ran : List Uuid → S → Type 0 where
    start : Ran [] init
    ran :
        {ids : List Uuid} {s : S} (e : Envelope P) (handler : Handler S P) (t : S)
        → Ran ids s
        → handlers e.event_type ≡ some handler
        → handler e s ≡ ok t
        → Ran (e.event_id ∷ ids) t

-- No event stands twice.
abbrev pub Once : List Uuid → Type 0
Once [] = Unit
Once (x ∷ xs) = (already_processed x xs ≡ false) × Once xs

module _ {S P : Type 0} (handlers : String → Option (Handler S P)) (init : S) where
  abbrev pub RanOnce : Store S → Type 0
  RanOnce store = Ran handlers init store.processed store.state × Once store.processed

  module _ (e : Envelope P) (handler : Handler S P)
      (known : handlers e.event_type ≡ some handler) where
    dispatch-RanOnce :
        (fault : Fault) (new : Bool) (store t : Store S)
        → dispatch fault handler e store ≡ ok (new, t)
        → RanOnce store
        → RanOnce t
    unfolding dispatch
    dispatch-RanOnce fault new store t done r =
        elim (Bool-cases (already_processed e.event_id store.processed)) [
          | inl old ↦ let same : store ≡ t = ground arith in subst RanOnce same r
          | inr fresh ↦ elim (Result-cases (handler e store.state)) [
            | inr (x, failed) ↦ absurd (ground arith)
            | inl (s, ran_to) ↦ elim (Option-cases fault) [
              | inr (x, broken) ↦ absurd (ground arith)
              | inl fine ↦
                  let u : Store S = record {
                    state = s;
                    processed = e.event_id ∷ store.processed;
                  } in
                  let same : u ≡ t = ground arith in
                  subst RanOnce same (ran e handler s r.0 known ran_to, (fresh, r.1))
            ]
          ]
        ]

    attempts-RanOnce :
        (max_retries : ℕ) (faults : ℕ → Fault) (left attempt : ℕ) (store t : Store S)
        → attempts max_retries faults handler e left attempt store ≡ handled t
        → RanOnce store
        → RanOnce t
    unfolding attempts
    attempts-RanOnce max_retries faults zero attempt store t done r = absurd (cc)
    attempts-RanOnce max_retries faults (suc left) attempt store t done r =
        elim (Result-cases (dispatch (faults attempt) handler e store)) [
          | inl ((new, u), went) ↦
              let same : u ≡ t = ground arith in
              subst RanOnce same (dispatch-RanOnce (faults attempt) new store u went r)
          | inr (x, failed) ↦ elim (Bool-cases (leb max_retries attempt)) [
            | inl last ↦ absurd (ground arith)
            | inr more ↦
                attempts-RanOnce max_retries faults left (suc attempt) store t (ground arith) r
          ]
        ]

  dead_letter-store :
      (broker_up : Bool) (r : ConsumerRecord P) (cause : Cause) (n : ℕ) (e : Option (Envelope P))
      (w t : World S P)
      → dead_letter broker_up r cause n e w ≡ some t
      → t.store ≡ w.store
  unfolding dead_letter
  dead_letter-store false r cause n e w t done = absurd (cc)
  dead_letter-store true r cause n e w t done = ground arith

  after_attempts-RanOnce :
      (broker_up : Bool) (r : ConsumerRecord P) (e : Envelope P) (w t : World S P) (a : Attempted S)
      → after_attempts broker_up r e w a ≡ some t
      → ((u : Store S) → a ≡ handled u → RanOnce u)
      → RanOnce w.store
      → RanOnce t.store
  unfolding after_attempts
  after_attempts-RanOnce broker_up r e w t (handled u) done new old =
      let same : u ≡ t.store = ground arith in subst RanOnce same (new u refl)
  after_attempts-RanOnce broker_up r e w t (gave_up x n) done new old =
      subst RanOnce (sym (dead_letter-store broker_up r (Cause.raised x) n (some e) w t done)) old
  after_attempts-RanOnce broker_up r e w t fell_out done new old =
      let same : w.store ≡ t.store = ground arith in subst RanOnce same old

  module _ (max_retries : ℕ) where
    handle_record-RanOnce :
        (faults : ℕ → Fault) (broker_up : Bool) (r : ConsumerRecord P) (w t : World S P)
        → handle_record max_retries handlers faults broker_up r w ≡ some t
        → RanOnce w.store
        → RanOnce t.store
    unfolding handle_record
    handle_record-RanOnce faults broker_up r w t done old = elim (Option-cases r.value) [
      | inl bad ↦
          let sent : dead_letter broker_up r Cause.undeserializable 0 none w ≡ some t =
            ground arith in
          subst RanOnce (sym (dead_letter-store broker_up r Cause.undeserializable 0 none w t sent))
            old
      | inr (e, parsed) ↦ elim (Option-cases (handlers e.event_type)) [
        | inl unknown ↦ let same : w.store ≡ t.store = ground arith in subst RanOnce same old
        | inr (handler, known) ↦
            let a = attempts max_retries faults handler e max_retries 1 w.store in
            after_attempts-RanOnce broker_up r e w t a (ground arith)
              (λ u went.
                attempts-RanOnce e handler known max_retries faults max_retries 1 w.store u went
                  old)
              old
      ]
    ]

    module _ (log : List (ConsumerRecord P)) where
      Step-RanOnce :
          {a b : Progress S P}
          → Step max_retries handlers log a b
          → RanOnce a.world.store
          → RanOnce b.world.store
      Step-RanOnce {a} {b} (handles faults up r w here_ done to) old =
          let new = handle_record-RanOnce faults up r a.world w done old in rw to new
      Step-RanOnce {a} {b} (rewinds faults r here_ failed to) old = rw to old
      Step-RanOnce {a} {b} (dies_late faults up r w here_ done to) old =
          let new = handle_record-RanOnce faults up r a.world w done old in rw to new
      Step-RanOnce {a} {b} (dies to) old = rw to old

      -- Whatever a partition holds and however often its records are delivered again (failed
      -- attempts, rewinds, a process that dies before or after a record was handled), the
      -- service's state is the one that its handlers lead to when they run on the events that are
      -- marked as processed, each once.
      pub Reach-RanOnce :
          {p : Progress S P} → Reach max_retries handlers log init p → RanOnce p.world.store
      Reach-RanOnce here = (start, tt)
      Reach-RanOnce (next before step) = Step-RanOnce step (Reach-RanOnce before)
