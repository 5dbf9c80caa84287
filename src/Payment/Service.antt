-- ===== src/Payment/Service.antt =====
-- `PaymentService` of services/payment/app/services.py.
pub mod Writes
pub mod Keeps
pub mod Refunds
use inventory_management_sys.Prelude.{
  ℕ, suc, Bool, true, false, not, ◌||◌, List, [], ◌∷◌, ◌++◌, Option, none, some, String, pos, ◌-ℤ◌,
  ltb_ℤ, Dict, lookup, insert, Uuid, Datetime, Decimal, ◌==◌, if◌then◌else◌,
}
use inventory_management_sys.Common.Errors.{Error, Result, ok, err, ◌>>=◌}
use inventory_management_sys.Common.Events.{Topic, Payload}
use inventory_management_sys.Common.Outbox.{enqueue_event}
use inventory_management_sys.Common.Text.{clip}
use inventory_management_sys.Payment.Models.{
  Payment, PaymentStatus, Refund, RefundStatus, Payments, refunded_amount,
}
use inventory_management_sys.Payment.Gateway.{
  PaymentError, Answer, charge, refund, failure_code, retryable, message,
}

-- What a call takes from outside: the new row's uuid4, the clock, the provider's random part, the
-- injected failures, and whether a concurrent transaction has inserted a payment for the order.
pub record Outside : Type 0 where
  pub fresh_id : Uuid
  pub now : Datetime
  pub hex : String
  pub injected : Uuid → Bool
  pub raced : Bool

-- The keyword arguments of `charge_for_order`.
pub record ChargeRequest : Type 0 where
  pub order_id : Uuid
  pub user_id : Uuid
  pub amount : Decimal
  pub currency : String
  pub method : String
  pub token : String
  pub card_last4 : Option String

-- The session writes the row back.
unfoldable pub put_payment : Payment → Payments → Payments
put_payment p s = record s { payments = insert p.order_id p s.payments }

-- `_publish`
unfoldable pub publish : Topic → Uuid → Payload → Payments → Payments
publish topic order_id payload s = record s {
  outbox = enqueue_event topic order_id payload order_id s.outbox;
}

-- The `except PaymentError` of `_attempt_charge`.
unfoldable pub charge_failed : PaymentError → Payment → Payments → Payment × Payments
unfolding publish put_payment failure_code retryable message
charge_failed e p s =
    let row : Payment = record p {
      status = PaymentStatus.failed;
      failure_code = some (failure_code e);
      failure_message = some (clip 500 (message e));
    } in
    (
      row,
      publish Topic.payment_failed row.order_id
          (Payload.failed (record {
            order_id = row.order_id;
            user_id = row.user_id;
            payment_id = some row.id;
            amount = row.amount;
            currency = row.currency;
            failure_code = failure_code e;
            failure_message = clip 500 (message e);
            retryable = retryable e;
          }))
          (put_payment row s),
    )

-- What `_attempt_charge` does once the provider has taken the money.
unfoldable pub charge_captured : Datetime → String → Payment → Payments → Payment × Payments
unfolding publish put_payment
charge_captured now provider_ref p s =
    let row : Payment = record p {
      status = PaymentStatus.succeeded;
      provider_ref = some provider_ref;
      paid_at = some now;
    } in
    (
      row,
      publish Topic.payment_succeeded row.order_id
          (Payload.succeeded (record {
            order_id = row.order_id;
            user_id = row.user_id;
            payment_id = row.id;
            amount = row.amount;
            currency = row.currency;
            method = row.method;
            provider_ref = provider_ref;
            paid_at = now;
          }))
          (put_payment row (record s { captured = row.order_id ∷ s.captured })),
    )

-- `_attempt_charge`
unfoldable pub attempt_charge : Outside → String → Payment → Payments → Payment × Payments
unfolding charge_failed charge_captured
attempt_charge o token p s = elim (charge o.injected o.hex p.order_id p.amount token) [
  | Answer.refused e ↦ charge_failed e p s
  | Answer.accepted provider_ref ↦ charge_captured o.now provider_ref p s
]

abbrev pub some_of : {A : Type 0} → A × Payments → Option A × Payments
some_of (a, s) = (some a, s)

unfoldable pub new_payment : Outside → ChargeRequest → Payment
new_payment o request = record {
  id = o.fresh_id;
  order_id = request.order_id;
  user_id = request.user_id;
  amount = request.amount;
  currency = request.currency;
  status = PaymentStatus.pending;
  method = request.method;
  card_last4 = request.card_last4;
  provider_ref = none;
  failure_code = none;
  failure_message = none;
  attempts = 1;
  paid_at = none;
  refunds = [];
}

-- `charge_for_order`. The insert fails for a second payment of the order and for CHECK (amount >= 0),
-- and both failures are taken for the first.
unfoldable pub charge_for_order :
    Outside → ChargeRequest → Payments → Result (Option Payment × Payments)
unfolding attempt_charge new_payment
charge_for_order o request s = elim (lookup request.order_id s.payments) [
  | some existing ↦ ok (none, s)
  | none ↦
      if o.raced || ltb_ℤ request.amount (pos 0)
      then err Error.conflict
      else ok (
          some_of (
            attempt_charge o request.token (new_payment o request)
              (put_payment (new_payment o request) s)))
]

-- The row that `retry_payment` tries to charge again.
unfoldable pub reopened : Payment → Payment
reopened p = record p {
  attempts = suc p.attempts;
  status = PaymentStatus.pending;
  failure_code = none;
  failure_message = none;
}

-- The two refusals by status.
abbrev pub may_retry : PaymentStatus → Bool
may_retry PaymentStatus.succeeded = false
may_retry PaymentStatus.refunded = false
may_retry _ = true

-- `retry_payment`
unfoldable pub retry_payment :
    Outside → Uuid → String → Uuid → Payments → Result (Payment × Payments)
unfolding attempt_charge reopened
retry_payment o order_id token caller_id s = elim (lookup order_id s.payments) [
  | none ↦ err Error.not_found
  | some p ↦
      if not (p.user_id == caller_id)
      then err Error.forbidden
      else if may_retry p.status
      then ok (attempt_charge o token (reopened p) (put_payment (reopened p) s))
      else err Error.conflict
]

-- `amount if amount is not None else payment.amount`
abbrev pub amount_or : Option Decimal → Decimal → Decimal
amount_or none default = default
amount_or (some amount) default = amount

-- The row of a refund, with what the provider's answer makes of it.
unfoldable pub refund_row : Outside → String → Decimal → RefundStatus → Option String → Refund
refund_row o reason amount status ref = record {
  id = o.fresh_id;
  amount = amount;
  reason = clip 300 reason;
  status = status;
  provider_ref = ref;
}

-- The provider's answer to a refund: the row is kept either way.
unfoldable pub refund_answered :
    Outside → Uuid → String → Decimal → Payment → Answer → Payments → Refund × Payments
unfolding publish put_payment refund_row
refund_answered o order_id reason amount p (Answer.refused e) s =
    let row = refund_row o reason amount RefundStatus.failed none in
    (row, put_payment (record p { refunds = p.refunds ++ row ∷ [] }) s)
refund_answered o order_id reason amount p (Answer.accepted ref) s =
    let row = refund_row o reason amount RefundStatus.completed (some ref) in
    (
      row,
      publish Topic.payment_refunded order_id
          (Payload.refunded (record {
            order_id = order_id;
            user_id = p.user_id;
            payment_id = p.id;
            refund_id = row.id;
            amount = amount;
            currency = p.currency;
            reason = clip 300 reason;
          }))
          (put_payment
            (record p { status = PaymentStatus.refunded; refunds = p.refunds ++ row ∷ [] }) s),
    )

-- `payment.provider_ref or ""`
abbrev pub ref_of : Option String → String
ref_of none = ""
ref_of (some ref) = ref

-- From the test of the amount on.
unfoldable pub refund_captured :
    Outside → Uuid → String → Decimal → Payment → Payments → Result (Option Refund × Payments)
unfolding refund_answered
refund_captured o order_id reason amount p s =
    if not (ltb_ℤ (pos 0) amount)
    then err Error.validation
    else if ltb_ℤ (p.amount -ℤ refunded_amount p) amount
    then err Error.validation
    else ok (
        some_of
          (refund_answered o order_id reason amount p (refund o.hex (ref_of p.provider_ref)) s))

abbrev pub was_captured : PaymentStatus → Bool
was_captured PaymentStatus.succeeded = true
was_captured _ = false

-- `refund_for_order`
unfoldable pub refund_for_order :
    Outside → Uuid → String → Option Decimal → Payments → Result (Option Refund × Payments)
unfolding refund_captured
refund_for_order o order_id reason amount s = elim (lookup order_id s.payments) [
  | none ↦ ok (none, s)
  | some p ↦
      if was_captured p.status
      then refund_captured o order_id reason (amount_or amount p.amount) p s
      else ok (none, s)
]
