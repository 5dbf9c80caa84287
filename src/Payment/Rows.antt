-- ===== src/Payment/Rows.antt =====
-- For which orders services/payment/app/services.py stores a payment: only `charge_for_order` adds one.
use inventory_management_sys.Prelude.{
  ℕ, ◌≡◌, sym, subst, inl, inr, ◌⊎◌, Bool, true, ◌||◌, Option, some, String, ltb_ℤ, pos, lookup,
  contains, Uuid, Decimal, ◌==◌, ==_iff, arith, Bool-cases, Option-cases,
}
use inventory_management_sys.Common.Errors.{ok}
use inventory_management_sys.Payment.Models.{Payment, Refund, Payments}
use inventory_management_sys.Payment.Gateway.{refund}
use inventory_management_sys.Payment.Service.{
  Outside, ChargeRequest, put_payment, attempt_charge, charge_for_order, new_payment, retry_payment,
  reopened, may_retry, refund_for_order, refund_captured, refund_answered, amount_or, was_captured,
  ref_of,
}
use inventory_management_sys.Payment.Service.Writes.{attempt_charge-Attempted}
use inventory_management_sys.Payment.Service.Refunds.{answered, refund_answered-Writes}
use inventory_management_sys.Payment.Invariant.{IsValid, Writes}

-- A payment of the order stands in the table.
abbrev pub row_in : Uuid → Payments → Bool
row_in o s = contains o s.payments

Writes-row_in :
    (k : Uuid) (p : Payment) (n : ℕ) (s t : Payments)
    → Writes k p n s t
    → (o : Uuid) → row_in o t ≡ true
    → (row_in o s ≡ true) ⊎ (o ≡ k)
Writes-row_in k p n s t w o h = elim (Bool-cases (o == k)) [
  | inl at ↦ inr ((==_iff o k).0 at)
  | inr apart ↦ inl (ground (arith, w.stored o))
]

-- What a write to a row that stands there leaves.
Writes-row_in_found :
    (k : Uuid) (p p' : Payment) (n : ℕ) (s t : Payments)
    → lookup k s.payments ≡ some p'
    → Writes k p n s t
    → (o : Uuid) → row_in o t ≡ true
    → row_in o s ≡ true
Writes-row_in_found k p p' n s t found w o h = elim (Writes-row_in k p n s t w o h) [
  | inl was ↦ was
  | inr same ↦ ground (arith, found, same)
]

pub charge_for_order-row_in :
    (o : Outside) (request : ChargeRequest) (x : Option Payment) (s t : Payments)
    → charge_for_order o request s ≡ ok (x, t)
    → (j : Uuid) → row_in j t ≡ true
    → (row_in j s ≡ true) ⊎ (j ≡ request.order_id)
unfolding charge_for_order new_payment
charge_for_order-row_in o request x s t e j h =
    elim (Option-cases (lookup request.order_id s.payments)) [
      | inr (p, found) ↦
          let same : s ≡ t = ground arith in inl (subst (λ z. row_in j z ≡ true) (sym same) h)
      | inl missing ↦ elim (Bool-cases (o.raced || ltb_ℤ request.amount (pos 0))) [
        | inl bad ↦ absurd (ground arith)
        | inr fine ↦
            let p = new_payment o request in
            let done = attempt_charge o request.token p (put_payment p s) in
            let same : done.1 ≡ t = ground arith in
            Writes-row_in request.order_id done.0 _ s done.1
              (attempt_charge-Attempted o request.token p s).writes j
              (subst (λ z. row_in j z ≡ true) (sym same) h)
      ]
    ]

pub retry_payment-row_in :
    (o : Outside) (k : Uuid) (token : String) (caller : Uuid) (p' : Payment) (s t : Payments)
    → IsValid s
    → retry_payment o k token caller s ≡ ok (p', t)
    → (j : Uuid) → row_in j t ≡ true
    → row_in j s ≡ true
unfolding retry_payment reopened
retry_payment-row_in o k token caller p' s t v e j h = elim (Option-cases (lookup k s.payments)) [
  | inl missing ↦ absurd (ground arith)
  | inr (p, found) ↦ elim (Bool-cases (p.user_id == caller)) [
    | inr other ↦ absurd (ground arith)
    | inl own ↦ elim (Bool-cases (may_retry p.status)) [
      | inr late ↦ absurd (ground arith)
      | inl may ↦
          let q = reopened p in
          let done = attempt_charge o token q (put_payment q s) in
          let same : done.1 ≡ t = ground arith in
          let at : p.order_id ≡ k = v.keyed k p found in
          Writes-row_in_found p.order_id done.0 p _ s done.1
            (subst (λ i. lookup i s.payments ≡ some p) (sym at) found)
            (attempt_charge-Attempted o token q s).writes j
            (subst (λ z. row_in j z ≡ true) (sym same) h)
    ]
  ]
]

pub refund_for_order-row_in :
    (o : Outside) (k : Uuid) (reason : String) (amount : Option Decimal) (x : Option Refund)
    (s t : Payments)
    → IsValid s
    → refund_for_order o k reason amount s ≡ ok (x, t)
    → (j : Uuid) → row_in j t ≡ true
    → row_in j s ≡ true
unfolding refund_for_order refund_captured
refund_for_order-row_in o k reason amount x s t v e j h =
    elim (Option-cases (lookup k s.payments)) [
      | inl missing ↦ let same : s ≡ t = ground arith in subst (λ z. row_in j z ≡ true) (sym same) h
      | inr (p, found) ↦ elim (Bool-cases (was_captured p.status)) [
        | inr never ↦ let same : s ≡ t = ground arith in subst (λ z. row_in j z ≡ true) (sym same) h
        | inl taken ↦
            let sum = amount_or amount p.amount in
            let a = refund o.hex (ref_of p.provider_ref) in
            let done = refund_answered o k reason sum p a s in
            let same : done.1 ≡ t = ground arith in
            Writes-row_in_found k (answered o reason sum p a) p 0 s done.1 found
              (refund_answered-Writes o k reason sum p a s (v.keyed k p found)) j
              (subst (λ z. row_in j z ≡ true) (sym same) h)
      ]
    ]
