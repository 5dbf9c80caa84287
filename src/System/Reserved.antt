-- ===== src/System/Reserved.antt =====
-- Across the inventory and payment services: money is taken only for what was reserved.
use inventory_management_sys.Prelude.{
  ◌≡◌, ◌≤◌, refl, sym, ap, subst, ◌∙◌, inl, inr, ◌⊎◌, true, Option, none, some, String, List, [],
  ◌∷◌, lookup, Uuid, arith, Bool-cases, Option-cases,
}
use Prim.Native.String.{◌++◌ as append}
use inventory_management_sys.Common.Errors.{Result-cases}
use inventory_management_sys.Common.Events.{Payload, InventoryReserved}
use inventory_management_sys.Common.Outbox.{OutboxRow}
use inventory_management_sys.Inventory.Models.{Settings}
use inventory_management_sys.Inventory.Announces.{times_reserved, reserves}
use inventory_management_sys.Inventory.Announces.Steps.{Step-Grows}
use inventory_management_sys.Payment.Models.{Payments}
use inventory_management_sys.Payment.Service.{charge_for_order, refund_for_order}
use inventory_management_sys.Payment.Consumer.{Message, handle, charge_request, refunded}
use inventory_management_sys.Payment.Invariant.{IsValid, charged_of, times_captured}
use inventory_management_sys.Payment.History as PaymentHistory
use inventory_management_sys.Payment.History.{payments-IsValid}
use inventory_management_sys.Payment.Rows.{
  row_in, charge_for_order-row_in, retry_payment-row_in, refund_for_order-row_in,
}
use inventory_management_sys.System.{
  System, payment_message, Sent, PaymentHears, charge_handled, order_acts, inventory_acts,
  payment_acts, Reach, here, next,
}
use inventory_management_sys.System.Captured.{payments_reached}

-- The events that the payment service takes for a reservation of the order.
abbrev Asks : Uuid → Option Message → Type 0
Asks o message =
    (event : InventoryReserved) × (message ≡ some (Message.inventory_reserved event))
    × (event.order_id ≡ o)

Step-row_in :
    {s t : Payments} (step : PaymentHistory.Step s t)
    → IsValid s
    → (j : Uuid) → row_in j t ≡ true
    → (row_in j s ≡ true) ⊎ Asks j (charge_handled step)
unfolding handle refunded charge_request
Step-row_in {s} {t} (PaymentHistory.handles o (Message.inventory_reserved event) e) v j h =
    elim (Result-cases (charge_for_order o (charge_request event) s)) [
      | inr (x, failed) ↦ absurd (ground arith)
      | inl ((x, u), done) ↦
          elim (charge_for_order-row_in o (charge_request event) x s t (ground arith) j h) [
            | inl was ↦ inl was
            | inr same ↦ inr (event, refl, sym same)
          ]
    ]
Step-row_in {s} {t} (PaymentHistory.handles o (Message.order_cancelled event) e) v j h =
    inl (elim (Bool-cases event.was_paid) [
      | inr free ↦ let same : s ≡ t = ground arith in subst (λ z. row_in j z ≡ true) (sym same) h
      | inl paid ↦
          let reason = append "order cancelled: " event.reason in
          elim (Result-cases (refund_for_order o event.order_id reason none s)) [
            | inr (x, failed) ↦ absurd (ground arith)
            | inl ((x, u), done) ↦
                refund_for_order-row_in o event.order_id reason none x s t v (ground arith) j h
          ]
    ])
Step-row_in {s} {t} (PaymentHistory.retries o k token caller p e) v j h =
    inl (retry_payment-row_in o k token caller p s t v e j h)
Step-row_in {s} {t} (PaymentHistory.refunds o k reason amount x e) v j h =
    inl (refund_for_order-row_in o k reason amount x s t v e j h)

reserves_of_message :
    (event : InventoryReserved) (payload : Payload)
    → payment_message payload ≡ some (Message.inventory_reserved event)
    → reserves event.order_id payload ≡ 1
reserves_of_message event (Payload.reserved event') e =
    let same : event' ≡ event = cc in let at = ap (λ z. z.order_id) (sym same) in ground (arith, at)
reserves_of_message event (Payload.user_registered x) e = absurd (cc)
reserves_of_message event (Payload.product_upserted x) e = absurd (cc)
reserves_of_message event (Payload.created x) e = absurd (cc)
reserves_of_message event (Payload.confirmed x) e = absurd (cc)
reserves_of_message event (Payload.cancelled x) e = absurd (cc)
reserves_of_message event (Payload.reservation_failed x) e = absurd (cc)
reserves_of_message event (Payload.stock_changed x) e = absurd (cc)
reserves_of_message event (Payload.low_stock x) e = absurd (cc)
reserves_of_message event (Payload.succeeded x) e = absurd (cc)
reserves_of_message event (Payload.failed x) e = absurd (cc)
reserves_of_message event (Payload.refunded x) e = absurd (cc)

Sent-reserved :
    (event : InventoryReserved) (rows : List OutboxRow)
    → Sent payment_message (Message.inventory_reserved event) rows
    → 1 ≤ times_reserved event.order_id rows
unfolding times_reserved
Sent-reserved event [] h = elim h [ ]
Sent-reserved event (row ∷ rows) (inl e) = omega (arith, reserves_of_message event row.payload e)
Sent-reserved event (row ∷ rows) (inr h) = omega (arith, Sent-reserved event rows h)

row_in-reserved :
    {upper : String → String} {settings : Settings} {s : System}
    → Reach upper settings s
    → (o : Uuid) → row_in o s.payments ≡ true
    → 1 ≤ times_reserved o s.inventory.outbox
unfolding lookup
row_in-reserved here o h = absurd (cc)
row_in-reserved (next {s} {t} before (order_acts step hears i p)) o h =
    rw i (row_in-reserved before o (ap (row_in o) (sym p) ∙ h))
row_in-reserved (next {s} {t} before (inventory_acts step hears same p)) o h =
    let old = row_in-reserved before o (ap (row_in o) (sym p) ∙ h) in
    omega (arith, old, Step-Grows step o)
row_in-reserved (next {s} {t} before (payment_acts step hears same i)) o h =
    elim (Step-row_in step (payments-IsValid (payments_reached before)) o h) [
      | inl was ↦ rw i (row_in-reserved before o was)
      | inr (event, taken, own) ↦
          let sent = Sent-reserved event s.inventory.outbox (subst (PaymentHears s) taken hears) in
          rw i (subst (λ k. 1 ≤ times_reserved k s.inventory.outbox) own sent)
    ]

-- In every state that the three services reach together from empty tables, by committed
-- transactions of each in any order, where a saga event is handled only if the service that owns
-- its topic has enqueued it, the provider has taken money only for orders whose reservation the
-- inventory has announced.
pub captured_order_reserved :
    {upper : String → String} {settings : Settings} {s : System}
    → Reach upper settings s
    → (o : Uuid) → 1 ≤ times_captured o s.payments.captured
    → 1 ≤ times_reserved o s.inventory.outbox
unfolding charged_of
captured_order_reserved {s = s} r o h =
    let v = payments-IsValid (payments_reached r) in
    row_in-reserved r o (elim (Option-cases (lookup o s.payments.payments)) [
      | inl missing ↦ absurd (ground (arith, v.captured_lem o))
      | inr (p, found) ↦ ground (arith, found)
    ])
