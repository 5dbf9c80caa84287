-- ===== src/Payment/Rollback.antt =====
-- What a rollback does not undo: the provider keeps the money of a charge in
-- services/payment/app/services.py whose transaction fails to commit.
use inventory_management_sys.Prelude.{
  ◌+◌, ◌≡◌, none, some, true, false, lookup, ltb_ℤ, pos, String, Decimal, arith,
}
use inventory_management_sys.Common.Errors.{ok}
use inventory_management_sys.Payment.Models.{Payment, Payments}
use Prim.Native.String.{◌++◌ as append}
use inventory_management_sys.Payment.Gateway.Answers.{charge-accepted, charge-again}
use inventory_management_sys.Payment.Gateway.{Answer, charge}
use inventory_management_sys.Payment.Service.{
  Outside, ChargeRequest, charge_for_order, new_payment, attempt_charge, charge_captured,
  put_payment, publish,
}
use inventory_management_sys.Payment.Invariant.{times_captured}

-- The state after a transaction from s, which would have led to t, is rolled back.
unfoldable pub rolled_back : Payments → Payments → Payments
rolled_back s t = record s { captured = t.captured }

not_negative : (a : Decimal) → ltb_ℤ (pos 0) a ≡ true → ltb_ℤ a (pos 0) ≡ false
not_negative a h = ground arith

-- If an order without a payment is charged, the provider accepts, and the transaction is then
-- rolled back, the redelivered event charges it again, so that the provider has taken the money
-- twice; no concurrent delivery inserts a payment meanwhile, and the injected failures are the
-- same.
pub charge_for_order_twice :
    (o o' : Outside) (request : ChargeRequest) (s : Payments) (ref : String)
    → lookup request.order_id s.payments ≡ none
    → o.raced ≡ false
    → o'.raced ≡ false
    → o'.injected ≡ o.injected
    → charge o.injected o.hex request.order_id request.amount request.token ≡ Answer.accepted ref
    → (p : Payment) × (q : Payment) × (t : Payments) × (u : Payments) × (charge_for_order o request
          s
        ≡ ok (some p, t))
      × (charge_for_order o' request (rolled_back s t) ≡ ok (some q, u))
      × (times_captured request.order_id u.captured
          ≡ times_captured request.order_id s.captured + 2)
unfolding charge_for_order attempt_charge charge_captured put_payment publish times_captured
    rolled_back new_payment
charge_for_order_twice o o' request s ref fresh calm calm' same taken =
    let (more, there) =
      charge-accepted o.injected o.hex request.order_id request.amount request.token ref taken in
    let again : charge o'.injected o'.hex request.order_id request.amount request.token
        ≡ Answer.accepted (append "mock_ch_" o'.hex) =
      rw same (
        charge-again o.injected o.hex o'.hex request.order_id request.amount request.token ref
          taken) in
    let fits : ltb_ℤ request.amount (pos 0) ≡ false = not_negative request.amount more in
    let p =
      charge_captured o.now ref (new_payment o request) (put_payment (new_payment o request) s) in
    let s' = rolled_back s p.1 in
    let q =
      charge_captured o'.now (append "mock_ch_" o'.hex) (new_payment o' request)
        (put_payment (new_payment o' request) s') in
    (
      p.0,
      q.0,
      p.1,
      q.1,
      ground (arith, fresh, fits, taken),
      ground (arith, fresh, fits, again),
      ground arith,
    )
