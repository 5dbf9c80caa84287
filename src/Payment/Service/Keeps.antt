-- ===== src/Payment/Service/Keeps.antt =====
-- Every call of `PaymentService` in services/payment/app/services.py keeps the invariant.
use inventory_management_sys.Prelude.{
  ◌≡◌, ◌≢◌, refl, ap, subst, ◌∙◌, inl, inr, true, false, ◌||◌, Option, none, some, String, pos,
  ltb_ℤ, Dict, lookup, Uuid, ◌==◌, arith, Bool-cases, Option-cases,
}
use inventory_management_sys.Common.Errors.{ok}
use inventory_management_sys.Payment.Models.{
  Payment, PaymentStatus, Payments, completed_sum, refunded_amount,
}
use inventory_management_sys.Payment.Service.{
  Outside, ChargeRequest, put_payment, attempt_charge, charge_for_order, retry_payment, new_payment,
  reopened, may_retry,
}
use inventory_management_sys.Payment.Service.Writes.{Attempted, attempt_charge-Attempted}
use inventory_management_sys.Payment.Invariant.{charges, charged_of, IsValid, Writes-IsValid}

-- Nothing was taken for the order before the attempt.
Attempted-IsValid :
    (k : Uuid) (p p' : Payment) (s t : Payments)
    → Attempted k p p' s t
    → p.order_id ≡ k
    → charged_of k s.payments ≡ 0
    → ltb_ℤ p.amount (pos 0) ≡ false
    → refunded_amount p ≡ pos 0
    → IsValid s
    → IsValid t
unfolding refunded_amount
Attempted-IsValid k p p' s t a own before nonneg unrefunded v =
    let none_back : refunded_amount p' ≡ pos 0 = ap completed_sum a.same_refunds ∙ unrefunded in
    Writes-IsValid k p' (charges p'.status) s t a.writes
      (record {
        settled = λ h. ground (arith, a.settled);
        positive = a.positive;
        referenced = a.referenced;
        nonnegative = rw a.same_amount nonneg;
        bounded = rw (none_back, a.same_amount) (ground arith);
        unrefunded = λ h. none_back;
      })
      (a.same_order ∙ own) (omega (arith, before)) v

charged_of_missing : (k : Uuid) (d : Dict Payment) → lookup k d ≡ none → charged_of k d ≡ 0
unfolding charged_of
charged_of_missing k d e = ground arith

pub charged_of_found :
    (k : Uuid) (d : Dict Payment) (p : Payment)
    → lookup k d ≡ some p
    → charged_of k d ≡ charges p.status
unfolding charged_of
charged_of_found k d p e = ground arith

pub charge_for_order-IsValid :
    (o : Outside) (request : ChargeRequest) (x : Option Payment) (s t : Payments)
    → IsValid s
    → charge_for_order o request s ≡ ok (x, t)
    → IsValid t
unfolding charge_for_order new_payment refunded_amount
charge_for_order-IsValid o request x s t v e =
    elim (Option-cases (lookup request.order_id s.payments)) [
      | inr (p, found) ↦ let same : s ≡ t = ground arith in subst IsValid same v
      | inl missing ↦ elim (Bool-cases (o.raced || ltb_ℤ request.amount (pos 0))) [
        | inl bad ↦ absurd (ground arith)
        | inr fine ↦
            let p = new_payment o request in
            let done = attempt_charge o request.token p (put_payment p s) in
            let same : done.1 ≡ t = ground arith in
            subst IsValid same (
              Attempted-IsValid request.order_id p done.0 s done.1
                (attempt_charge-Attempted o request.token p s) refl
                (charged_of_missing request.order_id s.payments missing) (ground arith) refl v)
      ]
    ]

pub retry_payment-IsValid :
    (o : Outside) (k : Uuid) (token : String) (caller : Uuid) (p' : Payment) (s t : Payments)
    → IsValid s
    → retry_payment o k token caller s ≡ ok (p', t)
    → IsValid t
unfolding retry_payment reopened refunded_amount
retry_payment-IsValid o k token caller p' s t v e = elim (Option-cases (lookup k s.payments)) [
  | inl missing ↦ absurd (ground arith)
  | inr (p, found) ↦ elim (Bool-cases (p.user_id == caller)) [
    | inr other ↦ absurd (ground arith)
    | inl own ↦ elim (Bool-cases (may_retry p.status)) [
      | inr late ↦ absurd (ground arith)
      | inl may ↦
          let q = reopened p in
          let sound = v.sound k p found in
          let done = attempt_charge o token q (put_payment q s) in
          let same : done.1 ≡ t = ground arith in
          let here : p.order_id ≡ k = v.keyed k p found in
          let attempt : Attempted k q done.0 s done.1 =
            subst (λ i. Attempted i q done.0 s done.1) here
              (attempt_charge-Attempted o token q s) in
          subst IsValid same (
            Attempted-IsValid k q done.0 s done.1 attempt here
              (charged_of_found k s.payments p found ∙ uncharged p.status may) sound.nonnegative
              (sound.unrefunded (retry_ne p.status may)) v)
    ]
  ]
]
  where
    uncharged : (x : PaymentStatus) → may_retry x ≡ true → charges x ≡ 0
    uncharged PaymentStatus.succeeded h = absurd (cc)
    uncharged PaymentStatus.refunded h = absurd (cc)
    uncharged PaymentStatus.pending h = refl
    uncharged PaymentStatus.failed h = refl

    retry_ne : (x : PaymentStatus) → may_retry x ≡ true → x ≢ PaymentStatus.refunded
    retry_ne x h e = ground arith
