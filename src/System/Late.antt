-- ===== src/System/Late.antt =====
-- A payment that comes too late for its order: services/payment/app/services.py retries a charge
-- whatever became of the order, and services/order/app/saga.py leaves a failed order as it is.
use inventory_management_sys.Prelude.{
  ℕ, suc, ◌≡◌, some, String, [], ◌∷◌, Dict, lookup, insert, Uuid, Datetime, ◌==◌, ==_iff, arith,
  inl, inr, Bool-cases,
}
use inventory_management_sys.Common.Errors.{ok}
use inventory_management_sys.Common.OrderStatus.{OrderStatus, can_transition}
use inventory_management_sys.Order.Models.{Order, OrderDb}
use inventory_management_sys.Order.Consumer.{with_row, with_order, Message, handle}
use inventory_management_sys.Order.Saga.{transition, confirm, on_payment_succeeded}
use inventory_management_sys.Payment.Models.{Payment, PaymentStatus, Payments}
use inventory_management_sys.Payment.Gateway.{Answer, charge}
use inventory_management_sys.Payment.Service.{
  Outside, put_payment, publish, attempt_charge, charge_captured, retry_payment, reopened,
}
use inventory_management_sys.Payment.Invariant.{IsValid, times_captured}

-- Writing back the row that stands there changes nothing.
insert-lookup {ℓ} :
    {V : Type ℓ} (k : ℕ) (v : V) (d : Dict V) → lookup k d ≡ some v → insert k v d ≡ d
unfolding lookup insert
insert-lookup k v [] e = absurd (cc)
insert-lookup k v ((j, w) ∷ d) e = elim (Bool-cases (k == j)) [
  | inl at ↦ let same : k ≡ j = (==_iff k j).0 at in ground arith
  | inr apart ↦ let rest = insert-lookup k v d (ground arith) in ground (arith, rest)
]

-- The order service takes the payment of a failed order for a late duplicate.
failed_order_stays :
    (now : Datetime) (k : Uuid) (x : Order) (db : OrderDb)
    → lookup k db.orders ≡ some x
    → x.status ≡ OrderStatus.failed
    → handle now (Message.payment_succeeded k) db ≡ ok db
unfolding handle with_order with_row on_payment_succeeded transition confirm can_transition
failed_order_stays now k x db found h =
    let back = insert-lookup k x db.orders found in ground (arith, found, h, back)

-- If the payment of a FAILED order has failed, its owner retries it and the provider accepts, the
-- provider has taken money once more, and the order service handles the announced payment without
-- any change.
pub retry_payment_too_late :
    (o : Outside) (k caller : Uuid) (token : String) (p : Payment) (s : Payments) (ref : String)
    (x : Order) (db : OrderDb)
    → IsValid s
    → lookup k s.payments ≡ some p
    → p.status ≡ PaymentStatus.failed
    → p.user_id ≡ caller
    → charge o.injected o.hex k p.amount token ≡ Answer.accepted ref
    → lookup k db.orders ≡ some x
    → x.status ≡ OrderStatus.failed
    → (q : Payment) × (t : Payments) × (retry_payment o k token caller s ≡ ok (q, t))
      × (times_captured k t.captured ≡ suc (times_captured k s.captured))
      × ((now : Datetime) → handle now (Message.payment_succeeded k) db ≡ ok db)
unfolding retry_payment attempt_charge charge_captured put_payment publish times_captured reopened
retry_payment_too_late o k caller token p s ref x db v found h own taken there failed =
    let here : p.order_id ≡ k = v.keyed k p found in
    let charged : charge o.injected o.hex p.order_id p.amount token ≡ Answer.accepted ref =
      rw here taken in
    let done = charge_captured o.now ref (reopened p) (put_payment (reopened p) s) in
    (
      done.0,
      done.1,
      ground (arith, here, found, h, own, taken, charged),
      ground (arith, here),
      λ now. failed_order_stays now k x db there failed,
    )
