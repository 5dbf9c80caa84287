-- ===== src/Order/Saga/Trail.antt =====
-- The invariant of an order: its history is a legal path of the status machine to its status.
use inventory_management_sys.Prelude.{
  suc, ◌≤◌, ◌≡◌, ◌≢◌, refl, Bool, true, false, not, ◌||◌, List, [], ◌∷◌, length, Option, none, some,
  String, Datetime, arith,
}
use inventory_management_sys.Common.OrderStatus.{
  OrderStatus, same_status, can_transition, is_terminal, is_in, paid_statuses,
}
use inventory_management_sys.Common.OrderStatus.Machine.{stage, stage-lt, can_transition-from}
use inventory_management_sys.Order.Models.{Order, OrderStatusHistory}
use inventory_management_sys.Order.Saga.{move, is_none}

-- The rows, newest first, lead from PENDING to the status, each from where the one before it ended.
abbrev pub Trail : List OrderStatusHistory → OrderStatus → Type 0
Trail [] s = ⊥
Trail (row ∷ rows) s = (row.to_status ≡ s) × elim row.from_status [
  | none ↦ (rows ≡ []) × (s ≡ OrderStatus.pending)
  | some p ↦ (can_transition p s ≡ true) × Trail rows p
]

-- Whether some row enters PAID.
unfoldable pub was_paid : List OrderStatusHistory → Bool
was_paid [] = false
was_paid (row ∷ rows) = same_status row.to_status OrderStatus.paid || was_paid rows

-- `completed_at` is set exactly in the terminal statuses, a failure reason only in FAILED, money was
-- taken exactly in the paid statuses and perhaps before CANCELLED, and the history is short.
pub record IsValid (order : Order) : Type 0 where
  pub trail : Trail order.history order.status
  pub completed : is_none order.completed_at ≡ not (is_terminal order.status)
  pub failure : order.status ≢ OrderStatus.failed → order.failure_reason ≡ none
  pub paid :
      order.status ≢ OrderStatus.cancelled
      → was_paid order.history ≡ is_in order.status paid_statuses
  pub short : length order.history ≤ suc (stage order.status)

pub move-IsValid :
    (now : Datetime) (target : OrderStatus) (reason : Option String) (order : Order)
    → IsValid order
    → can_transition order.status target ≡ true
    → IsValid (move now target reason order)
unfolding move was_paid
move-IsValid now target reason order v legal =
    let from = can_transition-from order.status target legal in
    record {
      trail = (refl, (legal, v.trail));
      completed = ground (arith, v.completed, from);
      failure = λ ne. ground (arith, v.failure from.1, from);
      paid = λ ne. ground (arith, v.paid from.2, from.3 ne);
      short = omega (arith, v.short, stage-lt order.status target legal);
    }
