-- ===== src/Payment/Service/Refunds.antt =====
-- `refund_for_order` of services/payment/app/services.py.
use inventory_management_sys.Prelude.{
  ◌≡◌, refl, sym, ap, subst, ◌∙◌, inl, inr, true, false, List, [], ◌∷◌, ◌++◌, Option, none, some,
  String, pos, ltb_ℤ, ◌≤ℤ◌, ◌+ℤ◌, ◌-ℤ◌, int_laws, ℤ, eq_of_parts, lookup, lookup-insert, Uuid,
  Decimal, arith, Bool-cases, Option-cases,
}
use Prim.Native.String.{◌++◌ as append}
use inventory_management_sys.Common.Errors.{ok}
use inventory_management_sys.Payment.Models.{
  Payment, PaymentStatus, Refund, RefundStatus, Payments, completed_sum, refunded_amount, amount_of,
}
use inventory_management_sys.Payment.Gateway.{Answer, refund}
use inventory_management_sys.Payment.Gateway.Answers.{refund-accepted}
use inventory_management_sys.Payment.Service.{
  Outside, ref_of, refund_for_order, refund_captured, refund_answered, refund_row, amount_or,
  was_captured,
}
use inventory_management_sys.Payment.Service.Keeps.{charged_of_found}
use inventory_management_sys.Payment.Invariant.{charges, IsSound, IsValid, Writes, Writes-IsValid}

completed_sum-append :
    (rs : List Refund) (r : Refund)
    → completed_sum (rs ++ r ∷ []) ≡ completed_sum rs +ℤ amount_of r.status r.amount
unfolding completed_sum
completed_sum-append [] r = eq_of_parts _ _ (omega int_laws)
completed_sum-append (x ∷ rs) r = rw (completed_sum-append rs r) (eq_of_parts _ _ (omega int_laws))

-- The payment's row after the provider's answer.
pub answered : Outside → String → Decimal → Payment → Answer → Payment
answered o reason amount p (Answer.refused e) = record p {
  refunds = p.refunds ++ refund_row o reason amount RefundStatus.failed none ∷ [];
}
answered o reason amount p (Answer.accepted ref) = record p {
  status = PaymentStatus.refunded;
  refunds = p.refunds ++ refund_row o reason amount RefundStatus.completed (some ref) ∷ [];
}

pub refund_answered-Writes :
    (o : Outside) (k : Uuid) (reason : String) (amount : Decimal) (p : Payment) (a : Answer)
    (s : Payments)
    → p.order_id ≡ k
    → Writes k (answered o reason amount p a) 0 s (refund_answered o k reason amount p a s).1
unfolding refund_answered answered
refund_answered-Writes o k reason amount p (Answer.refused e) s own = record {
  stored = λ j. rw own (lookup-insert j k _ s.payments);
  taken = λ j. ground arith;
}
refund_answered-Writes o k reason amount p (Answer.accepted ref) s own = record {
  stored = λ j. rw own (lookup-insert j k _ s.payments);
  taken = λ j. ground arith;
}

le_of_ltb : (a b : ℤ) → ltb_ℤ a b ≡ false → b ≤ℤ a
le_of_ltb a b h = ground arith

-- A refund of what is left of a captured payment keeps its row sound.
answered-IsSound :
    (o : Outside) (reason : String) (amount : Decimal) (p : Payment) (a : Answer)
    → IsSound p
    → p.status ≡ PaymentStatus.succeeded
    → ltb_ℤ (p.amount -ℤ refunded_amount p) amount ≡ false
    → IsSound (answered o reason amount p a)
unfolding answered refunded_amount refund_row
answered-IsSound o reason amount p (Answer.refused e) v h within =
    let row = refund_row o reason amount RefundStatus.failed none in
    record {
      settled = v.settled;
      positive = v.positive;
      referenced = v.referenced;
      nonnegative = v.nonnegative;
      bounded = rw (completed_sum-append p.refunds row) (omega (int_laws, v.bounded));
      unrefunded = λ x. rw (completed_sum-append p.refunds row) (
          rw (v.unrefunded (λ (y : p.status ≡ PaymentStatus.refunded). absurd (cc)))
            (eq_of_parts _ _ (omega int_laws)));
    }
answered-IsSound o reason amount p (Answer.accepted ref) v h within =
    let row = refund_row o reason amount RefundStatus.completed (some ref) in
    record {
      settled = λ x. absurd (cc);
      positive = λ x. v.positive (ap charges h);
      referenced = λ x. v.referenced (ap charges h);
      nonnegative = v.nonnegative;
      bounded =
          rw (completed_sum-append p.refunds row)
            (omega (int_laws, le_of_ltb (p.amount -ℤ completed_sum p.refunds) amount within));
      unrefunded = λ x. absurd (x refl);
    }

-- The row keeps its order, and money was taken for it as often as before.
answered-charges :
    (o : Outside) (reason : String) (amount : Decimal) (p : Payment) (a : Answer)
    → p.status ≡ PaymentStatus.succeeded
    → ((answered o reason amount p a).order_id ≡ p.order_id)
      × (charges (answered o reason amount p a).status ≡ charges p.status)
unfolding answered
answered-charges o reason amount p (Answer.refused e) h = (refl, refl)
answered-charges o reason amount p (Answer.accepted ref) h = (refl, sym (ap charges h))

pub captured_status : (x : PaymentStatus) → was_captured x ≡ true → x ≡ PaymentStatus.succeeded
captured_status PaymentStatus.succeeded h = refl
captured_status PaymentStatus.pending h = absurd (cc)
captured_status PaymentStatus.failed h = absurd (cc)
captured_status PaymentStatus.refunded h = absurd (cc)

module _ (o : Outside) (k : Uuid) (reason : String) (s : Payments) where
  refund_captured-IsValid :
      (amount : Decimal) (p : Payment) (x : Option Refund) (t : Payments)
      → IsValid s
      → lookup k s.payments ≡ some p
      → p.status ≡ PaymentStatus.succeeded
      → refund_captured o k reason amount p s ≡ ok (x, t)
      → IsValid t
  unfolding refund_captured
  refund_captured-IsValid amount p x t v found h e = elim (Bool-cases (ltb_ℤ (pos 0) amount)) [
    | inr bad ↦ absurd (ground arith)
    | inl more ↦ elim (Bool-cases (ltb_ℤ (p.amount -ℤ refunded_amount p) amount)) [
      | inl over ↦ absurd (ground arith)
      | inr within ↦
          let a = refund o.hex (ref_of p.provider_ref) in
          let (own, count) = answered-charges o reason amount p a h in
          let same : (refund_answered o k reason amount p a s).1 ≡ t = ground arith in
          subst IsValid same (
            Writes-IsValid k (answered o reason amount p a) 0 s _
              (refund_answered-Writes o k reason amount p a s (v.keyed k p found))
              (answered-IsSound o reason amount p a (v.sound k p found) h within)
              (own ∙ v.keyed k p found)
              (omega (arith, count, charged_of_found k s.payments p found)) v)
    ]
  ]

  pub refund_for_order-IsValid :
      (amount : Option Decimal) (x : Option Refund) (t : Payments)
      → IsValid s
      → refund_for_order o k reason amount s ≡ ok (x, t)
      → IsValid t
  unfolding refund_for_order
  refund_for_order-IsValid amount x t v e = elim (Option-cases (lookup k s.payments)) [
    | inl missing ↦ let same : s ≡ t = ground arith in subst IsValid same v
    | inr (p, found) ↦ elim (Bool-cases (was_captured p.status)) [
      | inr never ↦ let same : s ≡ t = ground arith in subst IsValid same v
      | inl taken ↦
          refund_captured-IsValid (amount_or amount p.amount) p x t v found
            (captured_status p.status taken) (ground arith)
    ]
  ]

not_less_self : (a : ℤ) → ltb_ℤ (a -ℤ pos 0) a ≡ false
not_less_self a =
    let same : a -ℤ pos 0 ≡ a = eq_of_parts _ _ (omega int_laws) in rw same (ground arith)

all_back : (rs : List Refund) (a : Decimal) → completed_sum rs ≡ pos 0 → completed_sum rs +ℤ a ≡ a
all_back rs a h = rw h (eq_of_parts _ _ (omega int_laws))

-- In a valid state, a refund of a SUCCEEDED payment without an amount is completed over the
-- payment's whole amount and leaves it REFUNDED, with as much refunded as was taken, and any
-- further refund of the order returns nothing and changes nothing.
pub refund_for_order-full :
    (o : Outside) (k : Uuid) (reason : String) (s : Payments) (p : Payment)
    → IsValid s
    → lookup k s.payments ≡ some p
    → p.status ≡ PaymentStatus.succeeded
    → (r : Refund) × (t : Payments) × (q : Payment) × (refund_for_order o k reason none s
        ≡ ok (some r, t))
      × (r.status ≡ RefundStatus.completed)
      × (r.amount ≡ p.amount)
      × (lookup k t.payments ≡ some q)
      × (q.status ≡ PaymentStatus.refunded)
      × (refunded_amount q ≡ q.amount)
      × ((o' : Outside) (reason' : String) (amount : Option Decimal)
          → refund_for_order o' k reason' amount t ≡ ok (none, t))
unfolding refund_for_order refund_captured refund_answered answered refund_row refunded_amount
refund_for_order-full o k reason s p v found h =
    let sound = v.sound k p found in
    let taken : charges p.status ≡ 1 = ap charges h in
    let ref = append "mock_re_" o.hex in
    let row = refund_row o reason p.amount RefundStatus.completed (some ref) in
    let q = answered o reason p.amount p (Answer.accepted ref) in
    let t = (refund_answered o k reason p.amount p (Answer.accepted ref) s).1 in
    let answer = refund-accepted o.hex (ref_of p.provider_ref) (sound.referenced taken) in
    let back : refunded_amount p ≡ pos 0 =
      sound.unrefunded (λ (x : p.status ≡ PaymentStatus.refunded). absurd (cc)) in
    let w =
      refund_answered-Writes o k reason p.amount p (Answer.accepted ref) s (v.keyed k p found) in
    let stored : lookup k t.payments ≡ some q = ground (arith, w.stored k) in
    let more : ltb_ℤ (pos 0) p.amount ≡ true = sound.positive taken in
    let within : ltb_ℤ (p.amount -ℤ refunded_amount p) p.amount ≡ false =
      rw back (not_less_self p.amount) in
    (
      row,
      t,
      q,
      ground (arith, found, h, answer, more, within),
      refl,
      refl,
      stored,
      refl,
      completed_sum-append p.refunds row ∙ all_back p.refunds p.amount back,
      λ o' reason' amount. ground (arith, stored),
    )
