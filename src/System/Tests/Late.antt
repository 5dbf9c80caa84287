-- ===== src/System/Tests/Late.antt =====
-- An order whose card is declined, so that it fails, and the payment that its customer retries:
-- services/payment/app/services.py and services/order/app/saga.py.
use inventory_management_sys.Prelude.{
  suc, ◌≡◌, refl, false, [], ◌∷◌, none, some, pos, lookup, insert, Datetime,
}
use inventory_management_sys.Common.Errors.{ok}
use inventory_management_sys.Common.Text.{clip}
use inventory_management_sys.Common.Events.{InventoryReserved}
use inventory_management_sys.Common.OrderStatus.{OrderStatus}
use inventory_management_sys.Order.Models.{Order, OrderDb}
use inventory_management_sys.Order.Consumer.{with_row, with_order, upsert_snapshot}
use inventory_management_sys.Order.Consumer as OrderConsumer
use inventory_management_sys.Payment.Models.{Payment, PaymentStatus, Payments}
use inventory_management_sys.Payment.Gateway.{Answer, charge, failure_code, retryable, message}
use inventory_management_sys.Payment.Service as PaymentService
use inventory_management_sys.Payment.Service.{
  put_payment, charge_captured, attempt_charge, new_payment, charge_for_order, charge_failed,
  retry_payment,
}
use inventory_management_sys.Payment.Consumer.{charge_request}
use inventory_management_sys.Payment.Consumer as PaymentConsumer
use inventory_management_sys.Payment.History as PaymentHistory
use inventory_management_sys.Payment.History.{payments-IsValid}
use inventory_management_sys.Payment.Invariant.{IsValid, times_captured}
use inventory_management_sys.System.Late.{retry_payment_too_late}
use inventory_management_sys.System.Tests.{order, for_sale, reserved, pay_outside, only}

-- The order of the other run, with a card that is declined at first.
abbrev refused : InventoryReserved
refused = record reserved {
  payment_method = record {
    method = "CARD";
    token = "tok_test_declined";
    last4 = none;
    label = none;
  };
}

abbrev declined : Payments
declined = only PaymentHistory.empty (
    PaymentConsumer.handle pay_outside (PaymentConsumer.Message.inventory_reserved refused)
      PaymentHistory.empty)

declined_ok :
    PaymentConsumer.handle pay_outside
      (PaymentConsumer.Message.inventory_reserved refused)
      PaymentHistory.empty
    ≡ ok declined
unfolding PaymentConsumer.handle charge_request charge_for_order new_payment attempt_charge charge
    charge_failed put_payment PaymentService.publish lookup insert failure_code retryable message
declined_ok = refl

abbrev unpaid : Payment
unpaid = record {
  id = 900;
  order_id = 100;
  user_id = 7;
  amount = pos 1998;
  currency = "INR";
  status = PaymentStatus.failed;
  method = "CARD";
  card_last4 = none;
  provider_ref = none;
  failure_code = some "card_declined";
  failure_message = some "the card was declined by the issuing bank";
  attempts = 1;
  paid_at = none;
  refunds = [];
}

unpaid_found : lookup 100 declined.payments ≡ some unpaid
unfolding PaymentConsumer.handle charge_request charge_for_order new_payment attempt_charge charge
    charge_failed put_payment PaymentService.publish lookup insert failure_code retryable message
    clip
unpaid_found = refl

declined-IsValid : IsValid declined
declined-IsValid = payments-IsValid (
    PaymentHistory.next PaymentHistory.here (
      PaymentHistory.handles pay_outside (PaymentConsumer.Message.inventory_reserved refused)
        declined_ok))

abbrev given_up : Order
given_up = record order { status = OrderStatus.failed }

abbrev given_up_db : OrderDb
given_up_db = record for_sale { orders = (100, given_up) ∷ [] }

given_up_found : lookup 100 given_up_db.orders ≡ some given_up
unfolding lookup
given_up_found = refl

accepted_later :
    charge (λ _. false) "0123" 100 (pos 1998) "tok_visa" ≡ Answer.accepted "mock_ch_0123"
unfolding charge
accepted_later = refl

retry_payment_too_late_example :
    (q : Payment) × (t : Payments) × (retry_payment pay_outside 100 "tok_visa" 7 declined
      ≡ ok (q, t))
    × (times_captured 100 t.captured ≡ suc (times_captured 100 declined.captured))
    × ((now : Datetime)
        → OrderConsumer.handle now (OrderConsumer.Message.payment_succeeded 100) given_up_db
          ≡ ok given_up_db)
retry_payment_too_late_example =
    retry_payment_too_late pay_outside 100 7 "tok_visa" unpaid declined "mock_ch_0123" given_up
      given_up_db declined-IsValid unpaid_found refl refl accepted_later given_up_found refl
