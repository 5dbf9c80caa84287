-- ===== src/Payment/Gateway/Answers.antt =====
-- When services/payment/app/mock_gateway.py accepts a charge or a refund.
use Prim.Native.String.{◌++◌ as append}
use text.Mathlib.TextLemmas.{append-eq-nil_iff}
use inventory_management_sys.Prelude.{
  Bool, true, false, ◌≡◌, refl, ap, inl, inr, String, pos, ltb_ℤ, Uuid, Decimal, arith, Bool-cases,
}
use inventory_management_sys.Payment.Gateway.{Answer, is_blank, charge, refund}

nil_of_blank : (text : String) → is_blank text ≡ true → text ≡ ""
nil_of_blank String.[] h = refl
nil_of_blank (String.◌∷◌ c text) h = absurd (cc)

ref_not_blank : (hex : String) → is_blank (append "mock_ch_" hex) ≡ false
ref_not_blank hex = elim (Bool-cases (is_blank (append "mock_ch_" hex))) [
  | inr fine ↦ fine
  | inl blank ↦
      let empty : ◌≡◌ {A = String} "mock_ch_" "" =
        ((append-eq-nil_iff).0 (nil_of_blank _ blank)).0 in
      let wrong : ◌≡◌ {A = Bool} false true = ap is_blank empty in absurd (cc)
]

-- A charge that the provider accepts is of a positive amount, and its reference is not empty.
pub charge-accepted :
    (injected : Uuid → Bool) (hex : String) (o : Uuid) (amount : Decimal) (token ref : String)
    → charge injected hex o amount token ≡ Answer.accepted ref
    → (ltb_ℤ (pos 0) amount ≡ true) × (is_blank ref ≡ false)
unfolding charge
charge-accepted injected hex o amount token ref e = ground (arith, ref_not_blank hex)

-- The provider decides a second charge of an order as it did the first.
pub charge-again :
    (injected : Uuid → Bool) (hex hex' : String) (o : Uuid) (amount : Decimal) (token ref : String)
    → charge injected hex o amount token ≡ Answer.accepted ref
    → charge injected hex' o amount token ≡ Answer.accepted (append "mock_ch_" hex')
unfolding charge
charge-again injected hex hex' o amount token ref e = ground arith

-- A refund of a payment with a reference is accepted.
pub refund-accepted :
    (hex ref : String)
    → is_blank ref ≡ false
    → refund hex ref ≡ Answer.accepted (append "mock_re_" hex)
unfolding refund
refund-accepted hex ref h = rw h refl
