-- ===== src/Payment/Gateway.antt =====
-- services/payment/app/mock_gateway.py: the outcome of a charge by its token.
pub mod Answers
use inventory_management_sys.Prelude.{
  Bool, true, false, Option, none, some, String, pos, ltb_ℤ, Uuid, Decimal, if◌then◌else◌,
}
use Prim.Native.String.{◌++◌ as append}
use text.Mathlib.Text.{◌==◌ as str_eq}

-- PaymentError and its subclasses, each with its message.
pub data PaymentError : Type 0 where
  payment_error card_declined insufficient_funds card_expired gateway_timeout :
      String → PaymentError

unfoldable pub failure_code : PaymentError → String
failure_code (PaymentError.payment_error _) = "payment_error"
failure_code (PaymentError.card_declined _) = "card_declined"
failure_code (PaymentError.insufficient_funds _) = "insufficient_funds"
failure_code (PaymentError.card_expired _) = "card_expired"
failure_code (PaymentError.gateway_timeout _) = "gateway_timeout"

unfoldable pub retryable : PaymentError → Bool
retryable (PaymentError.gateway_timeout _) = false
retryable _ = true

unfoldable pub message : PaymentError → String
message (PaymentError.payment_error text) = text
message (PaymentError.card_declined text) = text
message (PaymentError.insufficient_funds text) = text
message (PaymentError.card_expired text) = text
message (PaymentError.gateway_timeout text) = text

-- A result with the provider's reference, or the exception.
pub data Answer : Type 0 where
  accepted : String → Answer
  refused : PaymentError → Answer

-- `charge`. `injected` says for which orders `_stable_fraction` falls below a MOCK_FAILURE_RATE
-- above 0, and `hex` is what `uuid4().hex[:16]` gives.
unfoldable pub charge : (Uuid → Bool) → String → Uuid → Decimal → String → Answer
charge injected hex order_id amount token =
    if str_eq token "tok_test_declined"
    then Answer.refused (PaymentError.card_declined "the card was declined by the issuing bank")
    else if str_eq token "tok_test_insufficient"
    then Answer.refused (PaymentError.insufficient_funds "the card has insufficient funds")
    else if str_eq token "tok_test_expired"
    then Answer.refused (PaymentError.card_expired "the card has expired")
    else if str_eq token "tok_test_timeout"
    then Answer.refused
        (PaymentError.gateway_timeout "the payment provider did not respond in time")
    else if injected order_id
    then Answer.refused (PaymentError.card_declined "randomly injected decline (MOCK_FAILURE_RATE)")
    else if ltb_ℤ (pos 0) amount
    then Answer.accepted (append "mock_ch_" hex)
    else Answer.refused (PaymentError.card_declined "amount must be positive")

-- `if not provider_ref`
abbrev pub is_blank : String → Bool
is_blank String.[] = true
is_blank (String.◌∷◌ _ _) = false

-- `refund`
unfoldable pub refund : String → String → Answer
refund hex provider_ref =
    if is_blank provider_ref
    then Answer.refused
        (PaymentError.payment_error "cannot refund a charge with no provider reference")
    else Answer.accepted (append "mock_re_" hex)
