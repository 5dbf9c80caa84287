-- ===== src/Common/OrderStatus.antt =====
-- common/common/order_status.py: the statuses of an order and the legal transitions.
pub mod Machine
mod Tests
use inventory_management_sys.Prelude.{ℕ, Bool, false, ◌||◌, List, [], ◌∷◌, ◌==◌}

pub data OrderStatus : Type 0 where
  pending inventory_reserved paid confirmed shipped delivered cancelled failed : OrderStatus

-- A number for each status, by which statuses are compared.
abbrev pub ordinal : OrderStatus → ℕ
ordinal OrderStatus.pending = 0
ordinal OrderStatus.inventory_reserved = 1
ordinal OrderStatus.paid = 2
ordinal OrderStatus.confirmed = 3
ordinal OrderStatus.shipped = 4
ordinal OrderStatus.delivered = 5
ordinal OrderStatus.cancelled = 6
ordinal OrderStatus.failed = 7

-- `a is b` on the enum's members
abbrev pub same_status : OrderStatus → OrderStatus → Bool
same_status a b = ordinal a == ordinal b

-- `s in statuses`
abbrev pub is_in : OrderStatus → List OrderStatus → Bool
is_in s [] = false
is_in s (x ∷ xs) = same_status s x || is_in s xs

unfoldable pub terminal_statuses : List OrderStatus
terminal_statuses = OrderStatus.delivered ∷ OrderStatus.cancelled ∷ OrderStatus.failed ∷ []

unfoldable pub paid_statuses : List OrderStatus
paid_statuses =
    OrderStatus.paid ∷ OrderStatus.confirmed ∷ OrderStatus.shipped ∷ OrderStatus.delivered ∷ []

unfoldable pub allowed_transitions : OrderStatus → List OrderStatus
allowed_transitions OrderStatus.pending =
    OrderStatus.inventory_reserved ∷ OrderStatus.failed ∷ OrderStatus.cancelled ∷ []
allowed_transitions OrderStatus.inventory_reserved =
    OrderStatus.paid ∷ OrderStatus.failed ∷ OrderStatus.cancelled ∷ []
allowed_transitions OrderStatus.paid = OrderStatus.confirmed ∷ OrderStatus.cancelled ∷ []
allowed_transitions OrderStatus.confirmed = OrderStatus.shipped ∷ OrderStatus.cancelled ∷ []
allowed_transitions OrderStatus.shipped = OrderStatus.delivered ∷ []
allowed_transitions OrderStatus.delivered = []
allowed_transitions OrderStatus.cancelled = []
allowed_transitions OrderStatus.failed = []

unfoldable pub customer_cancellable : List OrderStatus
customer_cancellable =
    OrderStatus.pending ∷ OrderStatus.inventory_reserved ∷ OrderStatus.paid ∷ OrderStatus.confirmed
    ∷ []

unfoldable pub can_transition : OrderStatus → OrderStatus → Bool
unfolding allowed_transitions
can_transition current target = is_in target (allowed_transitions current)

unfoldable pub is_terminal : OrderStatus → Bool
unfolding terminal_statuses
is_terminal s = is_in s terminal_statuses
