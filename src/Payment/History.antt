-- ===== src/Payment/History.antt =====
-- The payment service's database and the provider over time: every committed transaction of the
-- consumer, the customers' retries and the administrators' refunds is a step. A transaction that the
-- provider has answered and that then fails to commit is no step: see `Payment/Rollback`.
use inventory_management_sys.Prelude.{
  ◌≡◌, ◌≤◌, refl, subst, inl, inr, [], none, lookup, Option, String, Uuid, Decimal, arith,
  Bool-cases, Option-cases,
}
use Prim.Native.String.{◌++◌ as append}
use inventory_management_sys.Common.Errors.{ok, Result-cases}
use inventory_management_sys.Payment.Models.{Payment, PaymentStatus, Refund, Payments}
use inventory_management_sys.Payment.Service.{
  Outside, charge_for_order, retry_payment, refund_for_order,
}
use inventory_management_sys.Payment.Service.Keeps.{charge_for_order-IsValid, retry_payment-IsValid}
use inventory_management_sys.Payment.Service.Refunds.{refund_for_order-IsValid}
use inventory_management_sys.Payment.Consumer.{Message, handle, charge_request}
use inventory_management_sys.Payment.Invariant.{IsValid, charges, charged_of, times_captured}

-- The tables as the first migration leaves them.
abbrev pub empty : Payments
empty = record { payments = []; outbox = []; captured = [] }

pub data Step (s t : Payments) : Type 0 where
  handles : (o : Outside) (message : Message) → handle o message s ≡ ok t → Step s t
  retries :
      (o : Outside) (order_id : Uuid) (token : String) (caller_id : Uuid) (p : Payment)
      → retry_payment o order_id token caller_id s ≡ ok (p, t)
      → Step s t
  refunds :
      (o : Outside) (order_id : Uuid) (reason : String) (amount : Option Decimal)
      (x : Option Refund)
      → refund_for_order o order_id reason amount s ≡ ok (x, t)
      → Step s t

pub data Reach : Payments → Type 0 where
  here : Reach empty
  next : {s t : Payments} → Reach s → Step s t → Reach t

handle-IsValid :
    (o : Outside) (message : Message) (s t : Payments)
    → IsValid s
    → handle o message s ≡ ok t
    → IsValid t
unfolding handle
handle-IsValid o (Message.inventory_reserved event) s t v e =
    elim (Result-cases (charge_for_order o (charge_request event) s)) [
      | inr (x, failed) ↦ absurd (ground arith)
      | inl ((x, u), done) ↦
          charge_for_order-IsValid o (charge_request event) x s t v (ground arith)
    ]
handle-IsValid o (Message.order_cancelled event) s t v e = elim (Bool-cases event.was_paid) [
  | inr free ↦ let same : s ≡ t = ground arith in subst IsValid same v
  | inl paid ↦
      elim (Result-cases
        (refund_for_order o event.order_id (append "order cancelled: " event.reason) none s)) [
          | inr (x, failed) ↦ absurd (ground arith)
          | inl ((x, u), done) ↦
              refund_for_order-IsValid o event.order_id (append "order cancelled: " event.reason) s
                none x t v (ground arith)
        ]
]

Step-IsValid : {s t : Payments} → Step s t → IsValid s → IsValid t
Step-IsValid {s} {t} (handles o message e) v = handle-IsValid o message s t v e
Step-IsValid {s} {t} (retries o k token caller p e) v =
    retry_payment-IsValid o k token caller p s t v e
Step-IsValid {s} {t} (refunds o k reason amount x e) v =
    refund_for_order-IsValid o k reason s amount x t v e

empty-IsValid : IsValid empty
unfolding lookup charged_of times_captured
empty-IsValid = record {
  sound = λ o p e. absurd (cc);
  keyed = λ o p e. absurd (cc);
  captured_lem = λ o. refl;
}

-- In every state of the payment service that a sequence of committed transactions reaches from the
-- empty tables (events that the consumer handles, retries and refunds, in any order), every
-- payment stands under its order, is not PENDING, refunds no more than its amount, and nothing
-- unless it is REFUNDED; one that was charged has a positive amount and a provider's reference;
-- and the provider has taken money for an order as often as its row's status says.
pub payments-IsValid : {s : Payments} → Reach s → IsValid s
payments-IsValid here = empty-IsValid
payments-IsValid (next before step) = Step-IsValid step (payments-IsValid before)

charged_once : (x : PaymentStatus) → charges x ≤ 1
charged_once PaymentStatus.succeeded = omega arith
charged_once PaymentStatus.refunded = omega arith
charged_once PaymentStatus.pending = omega arith
charged_once PaymentStatus.failed = omega arith

-- In every state of the payment service that committed transactions reach from the empty tables,
-- the mock provider has accepted at most one charge for an order; a timeout is not one.
pub captured_once : {s : Payments} → Reach s → (o : Uuid) → times_captured o s.captured ≤ 1
unfolding charged_of
captured_once {s} r o =
    let v = payments-IsValid r in
    elim (Option-cases (lookup o s.payments)) [
      | inl missing ↦ ground (arith, v.captured_lem o)
      | inr (p, found) ↦ ground (arith, v.captured_lem o, charged_once p.status)
    ]
