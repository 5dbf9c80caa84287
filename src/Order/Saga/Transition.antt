-- ===== src/Order/Saga/Transition.antt =====
-- What `transition` returns, writes and raises, for every status.
use inventory_management_sys.Prelude.{
  ◌≡◌, ◌≢◌, refl, subst, Bool-cases, ◌⊎◌, inl, inr, Bool, true, false, ◌∷◌, ◌&&◌, Option, none,
  some, String, Datetime, if◌then◌else◌, arith,
}
use inventory_management_sys.Common.Errors.{Error, ok, err}
use inventory_management_sys.Common.OrderStatus.{
  OrderStatus, can_transition, same_status, is_terminal,
}
use inventory_management_sys.Common.OrderStatus.Machine.{
  same_status-can_transition, same_status_refl, same_status_eq,
}
use inventory_management_sys.Order.Models.{Order}
use inventory_management_sys.Order.Saga.{SagaState, transition, move, is_text, is_none}

-- What `transition` returns, in terms of its writes.
pub transition_cases :
    (now : Datetime) (target : OrderStatus) (reason : Option String) (strict moved : Bool)
    (s t : SagaState)
    → transition now target reason strict s ≡ ok (moved, t)
    → (moved ≡ can_transition s.order.status target)
      × ((moved ≡ true) × (t ≡ record s { order = move now target reason s.order })
          ⊎ (moved ≡ false) × (t ≡ s))
unfolding transition
transition_cases now target reason strict moved s t e =
    elim (Bool-cases (same_status s.order.status target)) [
      | inl same ↦ ground (arith, same_status-can_transition s.order.status target same)
      | inr differs ↦ elim (Bool-cases (can_transition s.order.status target)) [
        | inl legal ↦ ground arith
        | inr illegal ↦ ground arith
      ]
    ]

-- The order after a move to the target: its status, one new row of its history, the reason as its
-- failure reason if it has failed, and the time if it has ended; all else is as it was.
pub record IsMoved (now : Datetime) (target : OrderStatus) (reason : Option String)
    (old new : Order) : Type 0 where
  pub status : new.status ≡ target
  pub history :
      new.history
      ≡ record { from_status = some old.status; to_status = target; reason = reason } ∷ old.history
  pub failure :
      ((target ≡ OrderStatus.failed) × (is_text reason ≡ true) × (new.failure_reason ≡ reason))
      ⊎ ((target ≢ OrderStatus.failed) ⊎ (is_text reason ≡ false))
        × (new.failure_reason ≡ old.failure_reason)
  pub completed :
      ((is_terminal target ≡ true) × (old.completed_at ≡ none) × (new.completed_at ≡ some now))
      ⊎ ((is_terminal target ≡ false) ⊎ (old.completed_at ≢ none))
        × (new.completed_at ≡ old.completed_at)
  pub others : new ≡ record old {
    status = new.status;
    history = new.history;
    failure_reason = new.failure_reason;
    completed_at = new.completed_at;
  }

completed_once :
    (now : Datetime) (ended : Bool) (old : Option Datetime)
    → let new = if is_none old && ended then some now else old in
      ((ended ≡ true) × (old ≡ none) × (new ≡ some now))
      ⊎ ((ended ≡ false) ⊎ (old ≢ none)) × (new ≡ old)
completed_once now true none = inl (refl, refl, refl)
completed_once now true (some t) = inr (inr (λ e. absurd (cc e)), refl)
completed_once now false none = inr (inl refl, refl)
completed_once now false (some t) = inr (inl refl, refl)

move-IsMoved :
    (now : Datetime) (target : OrderStatus) (reason : Option String) (order : Order)
    → IsMoved now target reason order (move now target reason order)
unfolding move
move-IsMoved now target reason order = record {
  status = refl;
  history = refl;
  failure = elim (Bool-cases (is_text reason)) [
    | inr empty ↦ inr (inr empty, rw empty refl)
    | inl text ↦ elim (Bool-cases (same_status target OrderStatus.failed)) [
      | inl fails ↦
          inl (same_status_eq target OrderStatus.failed fails, text, rw (text, fails) refl)
      | inr other ↦ inr (inl (λ e. differs e other), rw (text, other) refl)
    ]
  ];
  completed = completed_once now (is_terminal target) order.completed_at;
  others = refl;
}
  where
    differs : target ≡ OrderStatus.failed → same_status target OrderStatus.failed ≡ false → ⊥
    differs e other = cc (subst (λ x. same_status x OrderStatus.failed ≡ false) e other)

-- For every order and target `transition` does one of these. A legal move is reported, and the
-- order then has the new status, one new row of its history from the old status, the reason as its
-- failure reason exactly if it is a text and the target is FAILED, and a completion time if the
-- target is terminal and it had none; nothing else and no event is written. An illegal move, or
-- one to the same status, changes nothing, and raises InvalidStateTransition exactly if the call
-- is strict and the target is another status.
pub transition_lem :
    (now : Datetime) (target : OrderStatus) (reason : Option String) (strict : Bool) (s : SagaState)
    → ((can_transition s.order.status target ≡ true)
        × ((t : SagaState) × (transition now target reason strict s ≡ ok (true, t))
            × IsMoved now target reason s.order t.order
            × (t.outbox ≡ s.outbox)))
      ⊎ (can_transition s.order.status target ≡ false)
        × (((strict ≡ false) ⊎ (s.order.status ≡ target))
              × (transition now target reason strict s ≡ ok (false, s))
            ⊎ (strict ≡ true)
              × (s.order.status ≢ target)
              × (transition now target reason strict s ≡ err Error.invalid_state_transition))
unfolding transition
transition_lem now target reason strict s = elim (Bool-cases (same_status s.order.status target)) [
  | inl same ↦
      let stays = same_status-can_transition s.order.status target same in
      inr (stays, inl (inr (same_status_eq s.order.status target same), rw same refl))
  | inr differs ↦ elim (Bool-cases (can_transition s.order.status target)) [
    | inl legal ↦ inl (
      legal,
      (
        record s { order = move now target reason s.order },
        rw (differs, legal) refl,
        move-IsMoved now target reason s.order,
        refl,
      ),
    )
    | inr illegal ↦ inr (
      illegal,
      elim (Bool-cases strict) [
        | inr lenient ↦ inl (inl lenient, rw (differs, illegal, lenient) refl)
        | inl raises ↦ inr (
          raises,
          λ same.
              let here =
                subst (λ x. same_status s.order.status x ≡ true) same
                  (same_status_refl s.order.status) in
              cc,
          rw (differs, illegal, raises) refl,
        )
      ],
    )
  ]
]
