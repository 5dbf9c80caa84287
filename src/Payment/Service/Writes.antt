-- ===== src/Payment/Service/Writes.antt =====
-- What the calls of services/payment/app/services.py write: one row each, and what the provider took.
use inventory_management_sys.Prelude.{
  ◌≡◌, refl, ◌⊎◌, inl, inr, true, false, some, String, pos, ltb_ℤ, Dict, lookup, insert,
  lookup-insert, Uuid, Datetime, ◌==◌, if◌then◌else◌, arith,
}
use inventory_management_sys.Payment.Models.{Payment, PaymentStatus, Payments}
use inventory_management_sys.Payment.Gateway.{PaymentError, Answer, charge, is_blank}
use inventory_management_sys.Payment.Gateway.Answers.{charge-accepted}
use inventory_management_sys.Payment.Service.{
  Outside, put_payment, publish, charge_failed, charge_captured, attempt_charge, ref_of,
}
use inventory_management_sys.Payment.Invariant.{charges, times_captured, Writes}

pub Answer-cases :
    (a : Answer)
    → ((e : PaymentError) × (a ≡ Answer.refused e)) ⊎ ((ref : String) × (a ≡ Answer.accepted ref))
Answer-cases (Answer.refused e) = inl (e, refl)
Answer-cases (Answer.accepted ref) = inr (ref, refl)

-- An attempt to charge a row that is PENDING, of order o.
pub record Attempted (o : Uuid) (p p' : Payment) (s t : Payments) : Type 0 where
  pub writes : Writes o p' (charges p'.status) s t
  pub settled : (p'.status ≡ PaymentStatus.succeeded) ⊎ (p'.status ≡ PaymentStatus.failed)
  pub positive : charges p'.status ≡ 1 → ltb_ℤ (pos 0) p'.amount ≡ true
  pub referenced : charges p'.status ≡ 1 → is_blank (ref_of p'.provider_ref) ≡ false
  pub same_order : p'.order_id ≡ p.order_id
  pub same_amount : p'.amount ≡ p.amount
  pub same_refunds : p'.refunds ≡ p.refunds

-- Writing one row twice leaves the second.
twice :
    (j k : Uuid) (p q : Payment) (d : Dict Payment)
    → lookup j (insert k q (insert k p d)) ≡ (if j == k then some q else lookup j d)
twice j k p q d = ground (arith, lookup-insert j k q (insert k p d), lookup-insert j k p d)

charge_failed-Attempted :
    (e : PaymentError) (p : Payment) (s : Payments)
    → let done = charge_failed e p (put_payment p s) in Attempted p.order_id p done.0 s done.1
unfolding charge_failed put_payment publish
charge_failed-Attempted e p s = record {
  writes = record { stored = λ j. twice j p.order_id _ _ s.payments; taken = λ j. ground arith };
  settled = inr refl;
  positive = λ h. absurd (cc);
  referenced = λ h. absurd (cc);
  same_order = refl;
  same_amount = refl;
  same_refunds = refl;
}

charge_captured-Attempted :
    (now : Datetime) (ref : String) (p : Payment) (s : Payments)
    → ltb_ℤ (pos 0) p.amount ≡ true
    → is_blank ref ≡ false
    → let done = charge_captured now ref p (put_payment p s) in
      Attempted p.order_id p done.0 s done.1
unfolding charge_captured put_payment publish times_captured
charge_captured-Attempted now ref p s more there = record {
  writes = record { stored = λ j. twice j p.order_id _ _ s.payments; taken = λ j. ground arith };
  settled = inl refl;
  positive = λ h. more;
  referenced = λ h. there;
  same_order = refl;
  same_amount = refl;
  same_refunds = refl;
}

pub attempt_charge-Attempted :
    (o : Outside) (token : String) (p : Payment) (s : Payments)
    → let done = attempt_charge o token p (put_payment p s) in
      Attempted p.order_id p done.0 s done.1
unfolding attempt_charge
attempt_charge-Attempted o token p s =
    elim (Answer-cases (charge o.injected o.hex p.order_id p.amount token)) [
      | inl (why, refused) ↦ rw (refused, attempt_charge) (charge_failed-Attempted why p s)
      | inr (ref, accepted) ↦
          let (more, there) =
            charge-accepted o.injected o.hex p.order_id p.amount token ref accepted in
          rw (accepted, attempt_charge) (charge_captured-Attempted o.now ref p s more there)
    ]
