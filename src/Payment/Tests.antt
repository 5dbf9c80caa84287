-- ===== src/Payment/Tests.antt =====
-- The payment service of services/payment/app on an order of 29.97: charged, refunded in full, and
-- charged again after a rollback.
use inventory_management_sys.Prelude.{
  ◌+◌, ◌≡◌, refl, false, [], none, some, Option, String, pos, lookup, insert, Decimal,
}
use inventory_management_sys.Common.Errors.{Result, ok, err}
use inventory_management_sys.Common.Events.{PaymentMethod, InventoryReserved}
use inventory_management_sys.Payment.Models.{
  Payment, PaymentStatus, Refund, RefundStatus, Payments, refunded_amount,
}
use inventory_management_sys.Payment.Gateway.{Answer, charge}
use inventory_management_sys.Payment.Service.{
  Outside, ChargeRequest, put_payment, publish, charge_captured, attempt_charge, charge_for_order,
  new_payment, refund_for_order,
}
use inventory_management_sys.Payment.Service.Refunds.{refund_for_order-full}
use inventory_management_sys.Payment.Consumer.{Message, charge_request, handle}
use inventory_management_sys.Payment.Invariant.{IsValid, times_captured}
use inventory_management_sys.Payment.History.{empty, Reach, handles, here, next, payments-IsValid}
use inventory_management_sys.Payment.Rollback.{rolled_back, charge_for_order_twice}
use inventory_management_sys.Payment.Announced.{times_announced, announced_as_captured}

abbrev pub outside : Outside
outside = record {
  fresh_id = 900;
  now = 1100;
  hex = "0123456789abcdef";
  injected = λ _. false;
  raced = false;
}

abbrev card : PaymentMethod
card = record { method = "CARD"; token = "tok_visa"; last4 = some "4242"; label = none }

abbrev reserved : InventoryReserved
reserved = record {
  order_id = 100;
  user_id = 7;
  reservation_id = 500;
  expires_at = 1900;
  items = [];
  total_amount = pos 2997;
  currency = "INR";
  payment_method = card;
}

abbrev request : ChargeRequest
request = record {
  order_id = 100;
  user_id = 7;
  amount = pos 2997;
  currency = "INR";
  method = "CARD";
  token = "tok_visa";
  card_last4 = some "4242";
}

abbrev or_empty : Result Payments → Payments
or_empty (ok s) = s
or_empty (err _) = empty

abbrev charged : Payments
charged = or_empty (handle outside (Message.inventory_reserved reserved) empty)

charged_ok : handle outside (Message.inventory_reserved reserved) empty ≡ ok charged
unfolding handle charge_request charge_for_order new_payment attempt_charge charge charge_captured
    put_payment publish lookup insert
charged_ok = refl

abbrev charged_payment : Payment
charged_payment = record {
  id = 900;
  order_id = 100;
  user_id = 7;
  amount = pos 2997;
  currency = "INR";
  status = PaymentStatus.succeeded;
  method = "CARD";
  card_last4 = some "4242";
  provider_ref = some "mock_ch_0123456789abcdef";
  failure_code = none;
  failure_message = none;
  attempts = 1;
  paid_at = some 1100;
  refunds = [];
}

charged_found : lookup 100 charged.payments ≡ some charged_payment
unfolding handle charge_request charge_for_order new_payment attempt_charge charge charge_captured
    put_payment publish lookup insert
charged_found = refl

charged-Reach : Reach charged
charged-Reach = next here (handles outside (Message.inventory_reserved reserved) charged_ok)

payments-IsValid_example : IsValid charged
payments-IsValid_example = payments-IsValid charged-Reach

announced_as_captured_example :
    times_announced 100 charged.outbox ≡ times_captured 100 charged.captured
announced_as_captured_example = announced_as_captured charged-Reach 100

charged-IsValid : IsValid charged
charged-IsValid = payments-IsValid charged-Reach

refund_for_order-full_example :
    (r : Refund) × (t : Payments) × (q : Payment) × (refund_for_order outside 100 "order cancelled"
        none charged
      ≡ ok (some r, t))
    × (r.status ≡ RefundStatus.completed)
    × (r.amount ≡ pos 2997)
    × (lookup 100 t.payments ≡ some q)
    × (q.status ≡ PaymentStatus.refunded)
    × (refunded_amount q ≡ q.amount)
    × ((o' : Outside) (reason' : String) (amount : Option Decimal)
        → refund_for_order o' 100 reason' amount t ≡ ok (none, t))
refund_for_order-full_example =
    refund_for_order-full outside 100 "order cancelled" charged charged_payment charged-IsValid
      charged_found refl

nothing_there : lookup 100 empty.payments ≡ none
unfolding lookup
nothing_there = refl

accepted_here :
    charge (λ _. false) "0123456789abcdef" 100 (pos 2997) "tok_visa"
    ≡ Answer.accepted "mock_ch_0123456789abcdef"
unfolding charge
accepted_here = refl

charge_for_order_twice_example :
    (p : Payment) × (q : Payment) × (t : Payments) × (u : Payments) × (charge_for_order outside
        request empty
      ≡ ok (some p, t))
    × (charge_for_order outside request (rolled_back empty t) ≡ ok (some q, u))
    × (times_captured 100 u.captured ≡ times_captured 100 empty.captured + 2)
charge_for_order_twice_example =
    charge_for_order_twice outside outside request empty "mock_ch_0123456789abcdef" nothing_there
      refl refl refl accepted_here
