-- ===== src/Payment/Models.antt =====
-- The tables of services/payment/app/models.py, and what the payment provider has done.
use inventory_management_sys.Prelude.{
  ℕ, List, [], ◌∷◌, Option, String, pos, ◌+ℤ◌, Dict, Uuid, Datetime, Decimal,
}
use inventory_management_sys.Common.Outbox.{OutboxRow}

pub data PaymentStatus : Type 0 where
  pending succeeded failed refunded : PaymentStatus

pub data RefundStatus : Type 0 where
  pending completed failed : RefundStatus

pub record Refund : Type 0 where
  pub id : Uuid
  pub amount : Decimal
  pub reason : String
  pub status : RefundStatus
  pub provider_ref : Option String

-- A row of `payments` with its rows of `refunds`, the oldest first.
pub record Payment : Type 0 where
  pub id : Uuid
  pub order_id : Uuid
  pub user_id : Uuid
  pub amount : Decimal
  pub currency : String
  pub status : PaymentStatus
  pub method : String
  pub card_last4 : Option String
  pub provider_ref : Option String
  pub failure_code : Option String
  pub failure_message : Option String
  pub attempts : ℕ
  pub paid_at : Option Datetime
  pub refunds : List Refund

-- A refund that is not completed counts for nothing.
abbrev pub amount_of : RefundStatus → Decimal → Decimal
amount_of RefundStatus.completed amount = amount
amount_of _ amount = pos 0

-- The sum of the completed refunds.
unfoldable pub completed_sum : List Refund → Decimal
completed_sum [] = pos 0
completed_sum (refund ∷ refunds) = amount_of refund.status refund.amount +ℤ completed_sum refunds

unfoldable pub refunded_amount : Payment → Decimal
unfolding completed_sum
refunded_amount payment = completed_sum payment.refunds

-- The database, `payments` keyed by the UNIQUE `order_id`; and beside it, at the provider, the
-- orders whose money was taken, the last one first.
pub record Payments : Type 0 where
  pub payments : Dict Payment
  pub outbox : List OutboxRow
  pub captured : List Uuid
