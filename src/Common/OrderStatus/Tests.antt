-- ===== src/Common/OrderStatus/Tests.antt =====
-- The status machine of common/common/order_status.py at single statuses.
use inventory_management_sys.Prelude.{◌<◌, refl}
use inventory_management_sys.Common.OrderStatus.{OrderStatus, can_transition}
use inventory_management_sys.Common.OrderStatus.Machine.{stage, stage-lt}

stage-lt_example : stage OrderStatus.paid < stage OrderStatus.confirmed
unfolding can_transition
stage-lt_example = stage-lt OrderStatus.paid OrderStatus.confirmed refl
