-- ===== src/Payment/Announced.antt =====
-- services/payment/app/services.py announces every charge through the outbox, in the transaction
-- that stores it.
use inventory_management_sys.Prelude.{
  ℕ, ◌+◌, ◌≡◌, ◌≤◌, refl, subst, inl, inr, ◌||◌, List, [], ◌∷◌, Option, none, String, ltb_ℤ, pos,
  lookup, Uuid, Datetime, Decimal, ◌==◌, if◌then◌else◌, arith, Bool-cases, Option-cases,
}
use Prim.Native.String.{◌++◌ as append}
use inventory_management_sys.Common.Errors.{ok, Result-cases}
use inventory_management_sys.Common.Events.{Topic, Payload}
use inventory_management_sys.Common.Outbox.{OutboxRow, enqueue_event}
use inventory_management_sys.Payment.Models.{Payment, Refund, Payments}
use inventory_management_sys.Payment.Gateway.{Answer, PaymentError, charge, refund}
use inventory_management_sys.Payment.Service.{
  Outside, ChargeRequest, put_payment, publish, charge_failed, charge_captured, attempt_charge,
  charge_for_order, new_payment, retry_payment, reopened, may_retry, refund_for_order,
  refund_captured, refund_answered, amount_or, was_captured, ref_of,
}
use inventory_management_sys.Payment.Service.Writes.{Answer-cases}
use inventory_management_sys.Payment.Consumer.{handle, Message, charge_request, refunded}
use inventory_management_sys.Payment.Invariant.{times_captured}
use inventory_management_sys.Payment.History.{Step, handles, retries, refunds, Reach, here, next}

-- Whether an event announces a charge for the order, as a number.
abbrev pub announces : Uuid → Payload → ℕ
announces o (Payload.succeeded event) = if o == event.order_id then 1 else 0
announces o _ = 0

-- How many rows of the outbox announce a charge for the order.
unfoldable pub times_announced : Uuid → List OutboxRow → ℕ
times_announced o [] = 0
times_announced o (row ∷ rows) = announces o row.payload + times_announced o rows

-- The outbox announces each charge, and all that `base` announces.
abbrev pub Tells : List OutboxRow → Payments → Type 0
Tells base s =
    (o : Uuid)
    → (times_announced o s.outbox ≡ times_captured o s.captured)
      × (times_announced o base ≤ times_announced o s.outbox)

times_announced-enqueue_event :
    (o : Uuid) (topic : Topic) (key : Uuid) (payload : Payload) (a : Uuid) (rows : List OutboxRow)
    → times_announced o (enqueue_event topic key payload a rows)
      ≡ times_announced o rows + announces o payload
unfolding times_announced enqueue_event
times_announced-enqueue_event o topic key payload a [] = omega arith
times_announced-enqueue_event o topic key payload a (row ∷ rows) =
    omega (arith, times_announced-enqueue_event o topic key payload a rows)

module _ (base : List OutboxRow) where
  charge_failed-Tells :
      (e : PaymentError) (p : Payment) (s : Payments)
      → Tells base s
      → Tells base (charge_failed e p s).1
  unfolding charge_failed publish put_payment
  charge_failed-Tells e p s v o = (
    omega (arith, (v o).0, times_announced-enqueue_event o _ _ _ _ s.outbox),
    omega (arith, (v o).1, times_announced-enqueue_event o _ _ _ _ s.outbox),
  )

  charge_captured-Tells :
      (now : Datetime) (ref : String) (p : Payment) (s : Payments)
      → Tells base s
      → Tells base (charge_captured now ref p s).1
  unfolding charge_captured publish put_payment times_captured
  charge_captured-Tells now ref p s v o = (
    omega (arith, (v o).0, times_announced-enqueue_event o _ _ _ _ s.outbox),
    omega (arith, (v o).1, times_announced-enqueue_event o _ _ _ _ s.outbox),
  )

  attempt_charge-Tells :
      (o : Outside) (token : String) (p : Payment) (s : Payments)
      → Tells base s
      → Tells base (attempt_charge o token p s).1
  unfolding attempt_charge
  attempt_charge-Tells o token p s v =
      elim (Answer-cases (charge o.injected o.hex p.order_id p.amount token)) [
        | inl (why, refused) ↦ rw (refused, attempt_charge) (charge_failed-Tells why p s v)
        | inr (ref, accepted) ↦
            rw (accepted, attempt_charge) (charge_captured-Tells o.now ref p s v)
      ]

  charge_for_order-Tells :
      (o : Outside) (request : ChargeRequest) (x : Option Payment) (s t : Payments)
      → Tells base s
      → charge_for_order o request s ≡ ok (x, t)
      → Tells base t
  unfolding charge_for_order put_payment
  charge_for_order-Tells o request x s t v e =
      elim (Option-cases (lookup request.order_id s.payments)) [
        | inr (p, found) ↦ let same : s ≡ t = ground arith in subst (Tells base) same v
        | inl missing ↦ elim (Bool-cases (o.raced || ltb_ℤ request.amount (pos 0))) [
          | inl bad ↦ absurd (ground arith)
          | inr fine ↦
              let p = new_payment o request in
              let done = attempt_charge o request.token p (put_payment p s) in
              let same : done.1 ≡ t = ground arith in
              subst (Tells base) same (attempt_charge-Tells o request.token p (put_payment p s) v)
        ]
      ]

  retry_payment-Tells :
      (o : Outside) (k : Uuid) (token : String) (caller : Uuid) (p' : Payment) (s t : Payments)
      → Tells base s
      → retry_payment o k token caller s ≡ ok (p', t)
      → Tells base t
  unfolding retry_payment put_payment
  retry_payment-Tells o k token caller p' s t v e = elim (Option-cases (lookup k s.payments)) [
    | inl missing ↦ absurd (ground arith)
    | inr (p, found) ↦ elim (Bool-cases (p.user_id == caller)) [
      | inr other ↦ absurd (ground arith)
      | inl own ↦ elim (Bool-cases (may_retry p.status)) [
        | inr late ↦ absurd (ground arith)
        | inl may ↦
            let q = reopened p in
            let done = attempt_charge o token q (put_payment q s) in
            let same : done.1 ≡ t = ground arith in
            subst (Tells base) same (attempt_charge-Tells o token q (put_payment q s) v)
      ]
    ]
  ]

  refund_answered-Tells :
      (o : Outside) (k : Uuid) (reason : String) (amount : Decimal) (p : Payment) (a : Answer)
      (s : Payments)
      → Tells base s
      → Tells base (refund_answered o k reason amount p a s).1
  unfolding refund_answered publish put_payment
  refund_answered-Tells o k reason amount p (Answer.refused e) s v = v
  refund_answered-Tells o k reason amount p (Answer.accepted ref) s v = λ j. (
    omega (arith, (v j).0, times_announced-enqueue_event j _ _ _ _ s.outbox),
    omega (arith, (v j).1, times_announced-enqueue_event j _ _ _ _ s.outbox),
  )

  refund_for_order-Tells :
      (o : Outside) (k : Uuid) (reason : String) (amount : Option Decimal) (x : Option Refund)
      (s t : Payments)
      → Tells base s
      → refund_for_order o k reason amount s ≡ ok (x, t)
      → Tells base t
  unfolding refund_for_order refund_captured
  refund_for_order-Tells o k reason amount x s t v e = elim (Option-cases (lookup k s.payments)) [
    | inl missing ↦ let same : s ≡ t = ground arith in subst (Tells base) same v
    | inr (p, found) ↦ elim (Bool-cases (was_captured p.status)) [
      | inr never ↦ let same : s ≡ t = ground arith in subst (Tells base) same v
      | inl taken ↦
          let sum = amount_or amount p.amount in
          let done = refund_answered o k reason sum p (refund o.hex (ref_of p.provider_ref)) s in
          let same : done.1 ≡ t = ground arith in
          subst (Tells base) same (refund_answered-Tells o k reason sum p _ s v)
    ]
  ]

  handle-Tells :
      (o : Outside) (message : Message) (s t : Payments)
      → Tells base s
      → handle o message s ≡ ok t
      → Tells base t
  unfolding handle refunded
  handle-Tells o (Message.inventory_reserved event) s t v e =
      elim (Result-cases (charge_for_order o (charge_request event) s)) [
        | inr (x, failed) ↦ absurd (ground arith)
        | inl ((x, u), done) ↦
            charge_for_order-Tells o (charge_request event) x s t v (ground arith)
      ]
  handle-Tells o (Message.order_cancelled event) s t v e = elim (Bool-cases event.was_paid) [
    | inr free ↦ let same : s ≡ t = ground arith in subst (Tells base) same v
    | inl paid ↦
        let reason = append "order cancelled: " event.reason in
        elim (Result-cases (refund_for_order o event.order_id reason none s)) [
          | inr (x, failed) ↦ absurd (ground arith)
          | inl ((x, u), done) ↦
              refund_for_order-Tells o event.order_id reason none x s t v (ground arith)
        ]
  ]

  pub Step-announced : {s t : Payments} → Step s t → Tells base s → Tells base t
  Step-announced {s} {t} (handles o message e) v = handle-Tells o message s t v e
  Step-announced {s} {t} (retries o k token caller p e) v =
      retry_payment-Tells o k token caller p s t v e
  Step-announced {s} {t} (refunds o k reason amount x e) v =
      refund_for_order-Tells o k reason amount x s t v e

-- In every state of the payment service that committed transactions reach from the empty tables,
-- the outbox holds as many payment.succeeded events for an order as the provider has taken money
-- for it.
pub announced_as_captured :
    {s : Payments} → Reach s → (o : Uuid) → times_announced o s.outbox ≡ times_captured o s.captured
unfolding times_announced times_captured
announced_as_captured here o = refl
announced_as_captured (next {s} before step) o =
    (Step-announced s.outbox step (λ k. (announced_as_captured before k, omega arith)) o).0

-- No transaction takes an announcement back.
pub times_announced-le :
    {s t : Payments}
    → Reach s
    → Step s t
    → (o : Uuid) → times_announced o s.outbox ≤ times_announced o t.outbox
times_announced-le {s} before step o =
    (Step-announced s.outbox step (λ k. (announced_as_captured before k, omega arith)) o).1
