-- ===== src/Order/Saga/Handlers.antt =====
-- The saga's handlers keep an order valid; what a cancellation announces; duplicates and early events.
use inventory_management_sys.Prelude.{
  ◌≡◌, refl, sym, ◌∙◌, ◌⊎◌, inl, inr, Bool, true, false, Option, some, String, Datetime, arith,
}
use Prim.Native.String.{◌++◌ as append}
use inventory_management_sys.Common.Errors.{ok, Result-cases}
use inventory_management_sys.Common.OrderStatus.{OrderStatus, can_transition, is_in, paid_statuses}
use inventory_management_sys.Order.Models.{Order}
use inventory_management_sys.Order.Saga.{
  SagaState, transition, on_inventory_reserved, on_payment_succeeded, on_payment_failed, confirm,
  on_reservation_failed, cancel, announce, move,
}
use inventory_management_sys.Common.Text.{clip}
use inventory_management_sys.Order.Saga.Transition.{transition_cases}
use inventory_management_sys.Order.Saga.Trail.{IsValid, move-IsValid}

-- A valid order stays valid and keeps its id.
pub record Keeps (s t : SagaState) : Type 0 where
  pub valid : IsValid s.order → IsValid t.order
  pub same_id : t.order.id ≡ s.order.id

Keeps-same : (s t : SagaState) → t.order ≡ s.order → Keeps s t
Keeps-same s t e = record { valid = λ v. rw e v; same_id = rw e }

Keeps-trans : (s t u : SagaState) → Keeps s t → Keeps t u → Keeps s u
Keeps-trans s t u a b = record {
  valid = λ v. b.valid (a.valid v);
  same_id = rw b.same_id a.same_id;
}

move-id :
    (now : Datetime) (target : OrderStatus) (reason : Option String) (order : Order)
    → (move now target reason order).id ≡ order.id
unfolding move
move-id now target reason order = refl

pub transition-Keeps :
    (now : Datetime) (target : OrderStatus) (reason : Option String) (strict moved : Bool)
    (s t : SagaState)
    → transition now target reason strict s ≡ ok (moved, t)
    → Keeps s t
transition-Keeps now target reason strict moved s t e =
    go (transition_cases now target reason strict moved s t e)
  where
    go :
        (moved ≡ can_transition s.order.status target)
          × ((moved ≡ true) × (t ≡ record s { order = move now target reason s.order })
              ⊎ (moved ≡ false) × (t ≡ s))
        → Keeps s t
    go (legal, inr (_, same)) = rw same (Keeps-same s s refl)
    go (legal, inl (yes_moved, done)) = rw done (record {
      valid = λ v. move-IsValid now target reason s.order v (sym legal ∙ yes_moved);
      same_id = move-id now target reason s.order;
    })

module _ (now : Datetime) (moved : Bool) (s t : SagaState) where
  pub on_inventory_reserved-Keeps : on_inventory_reserved now s ≡ ok (moved, t) → Keeps s t
  unfolding on_inventory_reserved
  on_inventory_reserved-Keeps e =
      transition-Keeps now OrderStatus.inventory_reserved _ false moved s t e

  pub on_reservation_failed-Keeps :
      (reason : String) → on_reservation_failed now reason s ≡ ok (moved, t) → Keeps s t
  unfolding on_reservation_failed
  on_reservation_failed-Keeps reason e = transition-Keeps now OrderStatus.failed _ false moved s t e

  -- What follows the transition to PAID.
  confirm-Keeps : (first : Bool) → confirm now (first, s) ≡ ok (moved, t) → Keeps s t
  unfolding confirm
  confirm-Keeps false e = Keeps-same s t (ground arith)
  confirm-Keeps true e =
      elim (Result-cases (transition now OrderStatus.confirmed (some "order confirmed") true s)) [
        | inr (x, failed) ↦ absurd (ground arith)
        | inl ((again, u), done) ↦
            Keeps-trans s u t
              (transition-Keeps now OrderStatus.confirmed (some "order confirmed") true again s u
                done)
              (Keeps-same u t (ground arith))
      ]

pub on_payment_succeeded-Keeps :
    (now : Datetime) (moved : Bool) (s t : SagaState)
    → on_payment_succeeded now s ≡ ok (moved, t)
    → Keeps s t
unfolding on_payment_succeeded
on_payment_succeeded-Keeps now moved s t e =
    elim (Result-cases (transition now OrderStatus.paid (some "payment captured") false s)) [
      | inr (x, failed) ↦ absurd (ground arith)
      | inl ((first, u), done) ↦
          Keeps-trans s u t
            (transition-Keeps now OrderStatus.paid (some "payment captured") false first s u done)
            (confirm-Keeps now moved u t first (ground arith))
    ]

-- What an announcement adds is no part of the order.
announce-Keeps :
    (reason : String) (paid first moved : Bool) (s u t : SagaState)
    → announce reason paid (first, u) ≡ (moved, t)
    → Keeps s u
    → Keeps s t
unfolding announce
announce-Keeps reason paid first moved s u t e k =
    Keeps-trans s u t k (Keeps-same u t (ground arith))

pub on_payment_failed-Keeps :
    (now : Datetime) (code message : String) (moved : Bool) (s t : SagaState)
    → on_payment_failed now code message s ≡ ok (moved, t)
    → Keeps s t
unfolding on_payment_failed
on_payment_failed-Keeps now code message moved s t e =
    let reason = some (clip 500 (append "payment failed (" (append code (append "): " message)))) in
    elim (Result-cases (transition now OrderStatus.failed reason false s)) [
      | inr (x, failed) ↦ absurd (ground arith)
      | inl ((first, u), done) ↦
          announce-Keeps (append "payment failed: " code) false first moved s u t (ground arith)
            (transition-Keeps now OrderStatus.failed reason false first s u done)
    ]

pub cancel-Keeps :
    (now : Datetime) (reason actor : String) (moved : Bool) (s t : SagaState)
    → cancel now reason actor s ≡ ok (moved, t)
    → Keeps s t
unfolding cancel
cancel-Keeps now reason actor moved s t e =
    let text = some (clip 500 (append "cancelled by " (append actor (append ": " reason)))) in
    elim (Result-cases (transition now OrderStatus.cancelled text true s)) [
      | inr (x, failed) ↦ absurd (ground arith)
      | inl ((first, u), done) ↦
          announce-Keeps reason (is_in s.order.status paid_statuses) first moved s u t
            (ground arith) (transition-Keeps now OrderStatus.cancelled text true first s u done)
    ]
