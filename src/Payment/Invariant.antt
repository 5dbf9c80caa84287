-- ===== src/Payment/Invariant.antt =====
-- The invariant of the payment service's database and of what the provider has captured.
use inventory_management_sys.Prelude.{
  ℕ, ◌+◌, ◌≡◌, ◌≢◌, sym, subst, ◌∙◌, inl, inr, true, false, List, [], ◌∷◌, none, some, pos, ltb_ℤ,
  ◌≤ℤ◌, Dict, lookup, Uuid, ◌==◌, ==_iff, if◌then◌else◌, arith, Bool-cases,
}
use inventory_management_sys.Payment.Models.{Payment, PaymentStatus, Payments, refunded_amount}
use inventory_management_sys.Payment.Service.{ref_of}
use inventory_management_sys.Payment.Gateway.{is_blank}

-- How often money was taken for a payment in this status.
abbrev pub charges : PaymentStatus → ℕ
charges PaymentStatus.succeeded = 1
charges PaymentStatus.refunded = 1
charges _ = 0

unfoldable pub charged_of : Uuid → Dict Payment → ℕ
charged_of o payments = elim (lookup o payments) [ none ↦ 0 | some p ↦ charges p.status ]

-- How often the provider has taken money for an order.
unfoldable pub times_captured : Uuid → List Uuid → ℕ
times_captured o [] = 0
times_captured o (x ∷ xs) = (if o == x then 1 else 0) + times_captured o xs

-- Never PENDING once committed; a payment that was captured has a positive amount and a reference;
-- no more is refunded than was taken, and nothing unless the status is REFUNDED.
pub record IsSound (p : Payment) : Type 0 where
  pub settled : p.status ≢ PaymentStatus.pending
  pub positive : charges p.status ≡ 1 → ltb_ℤ (pos 0) p.amount ≡ true
  pub referenced : charges p.status ≡ 1 → is_blank (ref_of p.provider_ref) ≡ false
  pub nonnegative : ltb_ℤ p.amount (pos 0) ≡ false
  pub bounded : refunded_amount p ≤ℤ p.amount
  pub unrefunded : p.status ≢ PaymentStatus.refunded → refunded_amount p ≡ pos 0

-- Every row is sound and stands under its order; the provider took money for an order as often as
-- its row says, which is once or never.
pub record IsValid (s : Payments) : Type 0 where
  pub sound : (o : Uuid) (p : Payment) → lookup o s.payments ≡ some p → IsSound p
  pub keyed : (o : Uuid) (p : Payment) → lookup o s.payments ≡ some p → p.order_id ≡ o
  pub captured_lem : (o : Uuid) → times_captured o s.captured ≡ charged_of o s.payments

-- The row of order o is now p, and the provider has taken money for it n times more.
pub record Writes (o : Uuid) (p : Payment) (n : ℕ) (s t : Payments) : Type 0 where
  pub stored : (j : Uuid) → lookup j t.payments ≡ (if j == o then some p else lookup j s.payments)
  pub taken :
      (j : Uuid)
      → times_captured j t.captured ≡ times_captured j s.captured + (if j == o then n else 0)

-- A write of a sound row that accounts for what was taken keeps the invariant.
pub Writes-IsValid :
    (o : Uuid) (p : Payment) (n : ℕ) (s t : Payments)
    → Writes o p n s t
    → IsSound p
    → p.order_id ≡ o
    → charges p.status ≡ charged_of o s.payments + n
    → IsValid s
    → IsValid t
unfolding charged_of
Writes-IsValid o p n s t w sound own count v = record {
  sound = λ j x found. elim (Bool-cases (j == o)) [
    | inl here ↦ let same : p ≡ x = ground (arith, w.stored j) in subst IsSound same sound
    | inr there ↦ v.sound j x (ground (arith, w.stored j))
  ];
  keyed = λ j x found. elim (Bool-cases (j == o)) [
    | inl here ↦
        let same : p ≡ x = ground (arith, w.stored j) in
        subst (λ y. y.order_id ≡ j) same (own ∙ sym ((==_iff j o).0 here))
    | inr there ↦ v.keyed j x (ground (arith, w.stored j))
  ];
  captured_lem = λ j. elim (Bool-cases (j == o)) [
    | inl here ↦
        let same : j ≡ o = (==_iff j o).0 here in
        ground (arith, w.stored j, w.taken j, v.captured_lem j)
    | inr there ↦ ground (arith, w.stored j, w.taken j, v.captured_lem j)
  ];
}
