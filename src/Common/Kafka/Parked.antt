-- ===== src/Common/Kafka/Parked.antt =====
-- What `_handle_record` and `run` of common/common/kafka/consumer.py account for.
use inventory_management_sys.Prelude.{
  ℕ, zero, suc, ◌<◌, ◌≡◌, ◌≢◌, refl, subst, sym, inl, inr, Bool, true, false, List, ◌∷◌, Option,
  none, some, String, ◌==◌, arith, Bool-cases, Option-cases,
}
use inventory_management_sys.Common.Kafka.Consumer.{
  Envelope, ConsumerRecord, Cause, Handler, Fault, Attempted, handled, gave_up, fell_out, attempts,
  World, dead_letter, dead_letter_of, after_attempts, handle_record,
}
use inventory_management_sys.Common.Kafka.Log.{
  record_at, Progress, Step, Reach, handles, rewinds, dies_late, dies, here, next,
}
use inventory_management_sys.Common.Kafka.Committed.{
  Accounted, Grows, Grows-Accounted, attempts-marks, attempts-ne-fell_out,
}

Grows-same : {S P : Type 0} (w t : World S P) → w ≡ t → Grows w t
Grows-same w t same = record { marks = λ i h. rw (← same) h; letters = λ r h. rw (← same) h }

module _ {S P : Type 0} (handlers : String → Option (Handler S P)) where
  dead_letter-Accounted :
      (up : Bool) (r : ConsumerRecord P) (cause : Cause) (n : ℕ) (e : Option (Envelope P))
      (w t : World S P)
      → dead_letter up r cause n e w ≡ some t
      → e ≡ r.value
      → Grows w t × Accounted handlers t r
  unfolding dead_letter
  dead_letter-Accounted false r cause n e w t done own = absurd (cc)
  dead_letter-Accounted true r cause n e w t done own =
      let u : World S P = record w { dead = dead_letter_of r cause n e ∷ w.dead } in
      let same : u ≡ t = ground arith in
      rw (← same)
        (record { marks = λ i h. h; letters = λ x h. inr h }, inl (inl (refl, refl, refl, own)))

  module _ (r : ConsumerRecord P) (e : Envelope P) (handler : Handler S P)
      (parsed : r.value ≡ some e) where
    after_attempts-Accounted :
        (up : Bool) (w t : World S P) (max_retries : ℕ) (faults : ℕ → Fault) (a : Attempted S)
        → attempts max_retries faults handler e max_retries 1 w.store ≡ a
        → max_retries ≢ 0
        → after_attempts up r e w a ≡ some t
        → Grows w t × Accounted handlers t r
    unfolding after_attempts
    after_attempts-Accounted up w t max_retries faults (handled u) went some_round done =
        let x : World S P = record w { store = u } in
        let same : x ≡ t = ground arith in
        let (mark, marks) =
          attempts-marks handlers e handler max_retries faults max_retries 1 w.store u went in
        rw (← same) (record { marks = marks; letters = λ y h. h }, inr (e, parsed, inr mark))
    after_attempts-Accounted up w t max_retries faults (gave_up x n) went some_round done =
        dead_letter-Accounted up r (Cause.raised x) n (some e) w t done (sym parsed)
    after_attempts-Accounted up w t zero faults fell_out went some_round done =
        absurd (some_round refl)
    after_attempts-Accounted up w t (suc m) faults fell_out went some_round done =
        absurd
          (attempts-ne-fell_out handlers e handler (suc m) faults m 1 w.store (omega arith) went)

  module _ (max_retries : ℕ) (some_round : max_retries ≢ 0) where
    handle_record-Accounted :
        (faults : ℕ → Fault) (up : Bool) (r : ConsumerRecord P) (w t : World S P)
        → handle_record max_retries handlers faults up r w ≡ some t
        → Grows w t × Accounted handlers t r
    unfolding handle_record
    handle_record-Accounted faults up r w t done = elim (Option-cases r.value) [
      | inl bad ↦
          dead_letter-Accounted up r Cause.undeserializable 0 none w t (ground arith) (sym bad)
      | inr (e, parsed) ↦ elim (Option-cases (handlers e.event_type)) [
        | inl unknown ↦ (Grows-same w t (ground arith), inr (e, parsed, inl unknown))
        | inr (handler, known) ↦
            after_attempts-Accounted r e handler parsed up w t max_retries faults
              (attempts max_retries faults handler e max_retries 1 w.store) refl some_round
              (ground arith)
      ]
    ]

    module _ (log : List (ConsumerRecord P)) where
      -- The position is the committed offset, below which every record is accounted for.
      record Parked (p : Progress S P) : Type 0 where
        level : p.position ≡ p.committed
        below :
            (n : ℕ) (r : ConsumerRecord P)
            → n < p.committed
            → record_at n log ≡ some r
            → Accounted handlers p.world r

      Step-Parked : {a b : Progress S P} → Step max_retries handlers log a b → Parked a → Parked b
      Step-Parked {a} {b} (handles faults up r w at_ done to) old =
          let (g, it) = handle_record-Accounted faults up r a.world w done in
          rw to (record {
            level = refl;
            below = λ n x lt found. elim (Bool-cases (n == a.position)) [
              | inl eq ↦ let same : r ≡ x = ground arith in subst (Accounted handlers w) same it
              | inr ne ↦
                  Grows-Accounted handlers a.world w x g
                    (old.below n x (ground (arith, old.level)) found)
            ];
          })
      Step-Parked {a} {b} (rewinds faults r at_ failed to) old = rw to old
      Step-Parked {a} {b} (dies_late faults up r w at_ done to) old =
          let (g, it) = handle_record-Accounted faults up r a.world w done in
          rw to (record {
            level = refl;
            below = λ n x lt found. Grows-Accounted handlers a.world w x g (old.below n x lt found);
          })
      Step-Parked {a} {b} (dies to) old = rw to (record { level = refl; below = old.below })

      Reach-Parked :
          {init : S} {p : Progress S P} → Reach max_retries handlers log init p → Parked p
      Reach-Parked here = record { level = refl; below = λ n r lt found. absurd (omega arith) }
      Reach-Parked (next before step) = Step-Parked step (Reach-Parked before)

      -- If max_retries is not 0, every record below the committed offset of a partition has a dead
      -- letter with its place and its event, or its event is marked as processed or has no
      -- handler.
      pub committed-Accounted :
          {init : S} {p : Progress S P} (n : ℕ) (r : ConsumerRecord P)
          → Reach max_retries handlers log init p
          → n < p.committed
          → record_at n log ≡ some r
          → Accounted handlers p.world r
      committed-Accounted n r reached lt found = (Reach-Parked reached).below n r lt found
