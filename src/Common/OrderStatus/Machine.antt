-- ===== src/Common/OrderStatus/Machine.antt =====
-- The status machine as a whole: its sets agree with its transitions, and it cannot go round.
use inventory_management_sys.Prelude.{ℕ, ◌<◌, ◌≡◌, ◌↔◌, refl, true, false, ◌||◌, ◌≢◌, arith}
use inventory_management_sys.Common.OrderStatus.{
  OrderStatus, same_status, can_transition, is_terminal, is_in, customer_cancellable, paid_statuses,
}

-- A customer may cancel in exactly the statuses that have a transition to CANCELLED.
pub customer_cancellable_iff :
    (s : OrderStatus) → is_in s customer_cancellable ≡ can_transition s OrderStatus.cancelled
unfolding customer_cancellable can_transition
customer_cancellable_iff OrderStatus.pending = refl
customer_cancellable_iff _ = refl

-- How far along a status is.
abbrev pub stage : OrderStatus → ℕ
stage OrderStatus.pending = 0
stage OrderStatus.inventory_reserved = 1
stage OrderStatus.paid = 2
stage OrderStatus.confirmed = 3
stage OrderStatus.shipped = 4
stage _ = 5

-- Every legal transition goes to a status that is further along, so no order goes round.
pub stage-lt : (s t : OrderStatus) → can_transition s t ≡ true → stage s < stage t
unfolding can_transition
stage-lt OrderStatus.pending t h = ground arith
stage-lt _ t h = ground arith

-- A legal transition from a status that is not paid to one that is goes to PAID.
pub paid_entered :
    (s t : OrderStatus)
    → can_transition s t ≡ true
    → is_in s paid_statuses ≡ false
    → is_in t paid_statuses ≡ true
    → t ≡ OrderStatus.paid
unfolding can_transition paid_statuses
paid_entered OrderStatus.pending t h = ground arith
paid_entered _ t h = ground arith

-- No transition stays where it is.
pub same_status-can_transition :
    (s t : OrderStatus) → same_status s t ≡ true → can_transition s t ≡ false
unfolding can_transition
same_status-can_transition OrderStatus.pending t h = ground arith
same_status-can_transition _ t h = ground arith

-- The lifecycle's comparison is equality.
pub same_status_eq : (s t : OrderStatus) → same_status s t ≡ true → s ≡ t
same_status_eq OrderStatus.pending OrderStatus.pending h = refl
same_status_eq OrderStatus.inventory_reserved OrderStatus.inventory_reserved h = refl
same_status_eq OrderStatus.paid OrderStatus.paid h = refl
same_status_eq OrderStatus.confirmed OrderStatus.confirmed h = refl
same_status_eq OrderStatus.shipped OrderStatus.shipped h = refl
same_status_eq OrderStatus.delivered OrderStatus.delivered h = refl
same_status_eq OrderStatus.cancelled OrderStatus.cancelled h = refl
same_status_eq OrderStatus.failed OrderStatus.failed h = refl
same_status_eq _ _ h = absurd (cc)

pub same_status_refl : (s : OrderStatus) → same_status s s ≡ true
same_status_refl OrderStatus.pending = refl
same_status_refl _ = refl

-- What a transition leaves: a status that is not terminal, and in which money was taken if it was
-- taken in the next one, unless that is PAID itself.
pub can_transition-from :
    (s t : OrderStatus)
    → can_transition s t ≡ true
    → (is_terminal s ≡ false)
      × (s ≢ OrderStatus.failed)
      × (s ≢ OrderStatus.cancelled)
      × (t ≢ OrderStatus.cancelled
          → same_status t OrderStatus.paid || is_in s paid_statuses ≡ is_in t paid_statuses)
unfolding can_transition is_terminal paid_statuses
can_transition-from OrderStatus.pending t h = ground arith
can_transition-from _ t h = ground arith

-- The terminal statuses are exactly those that no transition leaves.
is_terminal_iff :
    (s : OrderStatus) → (is_terminal s ≡ true) ↔ ((t : OrderStatus) → can_transition s t ≡ false)
unfolding is_terminal can_transition
is_terminal_iff OrderStatus.pending = (λ h. absurd (cc), λ h. absurd (cc (h OrderStatus.failed)))
is_terminal_iff OrderStatus.inventory_reserved =
    (λ h. absurd (cc), λ h. absurd (cc (h OrderStatus.failed)))
is_terminal_iff OrderStatus.paid = (λ h. absurd (cc), λ h. absurd (cc (h OrderStatus.cancelled)))
is_terminal_iff OrderStatus.confirmed =
    (λ h. absurd (cc), λ h. absurd (cc (h OrderStatus.cancelled)))
is_terminal_iff OrderStatus.shipped = (λ h. absurd (cc), λ h. absurd (cc (h OrderStatus.delivered)))
is_terminal_iff _ = (λ h t. refl, λ h. refl)

-- A legal transition from a paid status to one that is not goes to CANCELLED.
paid_left :
    (s t : OrderStatus)
    → can_transition s t ≡ true
    → is_in s paid_statuses ≡ true
    → is_in t paid_statuses ≡ false
    → t ≡ OrderStatus.cancelled
unfolding can_transition paid_statuses
paid_left OrderStatus.pending t h = ground arith
paid_left _ t h = ground arith
