-- ===== src/Order/Unpaid.antt =====
-- Which transactions of services/order/app/{consumer,services}.py can bring an order into a paid
-- status: only the handling of payment.succeeded for that order.
pub mod Steps
use inventory_management_sys.Prelude.{
  ◌≡◌, ◌≢◌, refl, sym, subst, ap, ◌∙◌, ◌⊎◌, inl, inr, Bool, true, false, not, ◌&&◌, List, ℕ, Option,
  none, some, String, lookup, insert, lookup-insert, ◌==◌, ==_iff, if◌then◌else◌, Uuid, Datetime,
  arith, Bool-cases, Option-cases,
}
use Prim.Native.String.{◌++◌ as append}
use inventory_management_sys.Common.Text.{clip}
use inventory_management_sys.Common.Errors.{Result, ok, ◌>>=◌, Result-cases}
use inventory_management_sys.Common.OrderStatus.{
  OrderStatus, is_in, customer_cancellable, can_transition, paid_statuses,
}
use inventory_management_sys.Common.OrderStatus.Machine.{paid_entered}
use inventory_management_sys.Order.Models.{Order, OrderDb, ProductSnapshot}
use inventory_management_sys.Order.Saga.{
  SagaState, transition, move, cancel, announce, on_inventory_reserved, on_reservation_failed,
  on_payment_failed,
}
use inventory_management_sys.Order.Saga.Transition.{transition_cases}
use inventory_management_sys.Order.Consumer.{with_row, with_order, Message, upsert_snapshot, handle}
use inventory_management_sys.Order.Service.{
  get_for_user, cancel_order, admin_move, ship_order, deliver_order,
}
use inventory_management_sys.Order.Checkout.{
  CreateOrderRequest, Race, get_by_idempotency_key, priced, new_order, store_order, flush_order,
  create_order, fit_checks,
}
use inventory_management_sys.Order.History.{Step, handles, creates, cancels, ships, delivers}

-- Whether the order has been paid for, by its status.
unfoldable pub paid_in : Uuid → OrderDb → Bool
paid_in o db = elim (lookup o db.orders) [ none ↦ false | some x ↦ is_in x.status paid_statuses ]

-- A unit of work that does not bring its order into a paid status.
abbrev pub Stays : SagaState → SagaState → Type 0
Stays s t = is_in t.order.status paid_statuses ≡ true → is_in s.order.status paid_statuses ≡ true

move-status :
    (now : Datetime) (target : OrderStatus) (reason : Option String) (order : Order)
    → (move now target reason order).status ≡ target
unfolding move
move-status now target reason order = refl

pub transition-Stays :
    (now : Datetime) (target : OrderStatus) (reason : Option String) (strict moved : Bool)
    (s t : SagaState)
    → target ≢ OrderStatus.paid
    → transition now target reason strict s ≡ ok (moved, t)
    → Stays s t
transition-Stays now target reason strict moved s t other e =
    go (transition_cases now target reason strict moved s t e)
  where
    go :
        (moved ≡ can_transition s.order.status target)
          × ((moved ≡ true) × (t ≡ record s { order = move now target reason s.order })
              ⊎ (moved ≡ false) × (t ≡ s))
        → Stays s t
    go (legal, inr (_, same)) = rw same (λ h. h)
    go (legal, inl (yes_moved, done)) = rw done (λ h.
        elim (Bool-cases (is_in s.order.status paid_statuses)) [
          | inl was ↦ was
          | inr unpaid ↦ absurd (
              other (
                paid_entered s.order.status target (sym legal ∙ yes_moved) unpaid (
                  subst (λ z. is_in z paid_statuses ≡ true) (move-status now target reason s.order)
                    h)))
        ])

module _ (now : Datetime) (moved : Bool) (s t : SagaState) where
  pub on_inventory_reserved-Stays : on_inventory_reserved now s ≡ ok (moved, t) → Stays s t
  unfolding on_inventory_reserved
  on_inventory_reserved-Stays e =
      transition-Stays now OrderStatus.inventory_reserved _ false moved s t (λ h. absurd (cc)) e

  pub on_reservation_failed-Stays :
      (reason : String) → on_reservation_failed now reason s ≡ ok (moved, t) → Stays s t
  unfolding on_reservation_failed
  on_reservation_failed-Stays reason e =
      transition-Stays now OrderStatus.failed _ false moved s t (λ h. absurd (cc)) e

  -- An announcement after a transition.
  announced-Stays :
      (target : OrderStatus) (text : Option String) (strict : Bool) (reason : String) (paid : Bool)
      → target ≢ OrderStatus.paid
      → transition now target text strict s >>= (λ m. ok (announce reason paid m)) ≡ ok (moved, t)
      → Stays s t
  unfolding announce
  announced-Stays target text strict reason paid other e =
      elim (Result-cases (transition now target text strict s)) [
        | inr (x, failed) ↦ absurd (ground arith)
        | inl ((first, u), done) ↦
            let same : u.order ≡ t.order = ground arith in
            subst
              (λ z. is_in z.status paid_statuses ≡ true → is_in s.order.status paid_statuses ≡ true)
              same (transition-Stays now target text strict first s u other done)
      ]

  pub on_payment_failed-Stays :
      (code message : String) → on_payment_failed now code message s ≡ ok (moved, t) → Stays s t
  unfolding on_payment_failed
  on_payment_failed-Stays code message e =
      announced-Stays OrderStatus.failed _ false _ false (λ h. absurd (cc)) e

  pub cancel-Stays : (reason actor : String) → cancel now reason actor s ≡ ok (moved, t) → Stays s t
  unfolding cancel
  cancel-Stays reason actor e =
      announced-Stays OrderStatus.cancelled _ true reason _ (λ h. absurd (cc)) e

-- No order that was not paid for is paid for afterwards.
abbrev pub NoneEnters : OrderDb → OrderDb → Type 0
NoneEnters db db' = (o : Uuid) → paid_in o db' ≡ true → paid_in o db ≡ true

pub with_row-NoneEnters :
    (k : Uuid) (x : Order) (work : SagaState → Result (Bool × SagaState)) (db db' : OrderDb)
    → ((moved : Bool) (s t : SagaState) → work s ≡ ok (moved, t) → Stays s t)
    → lookup k db.orders ≡ some x
    → with_row k x work db ≡ ok db'
    → NoneEnters db db'
unfolding with_row paid_in
with_row-NoneEnters k x work db db' stays found e o h =
    let start : SagaState = record { order = x; outbox = db.outbox } in
    elim (Result-cases (work start)) [
      | inr (bad, failed) ↦ absurd (ground arith)
      | inl ((moved, t), done) ↦
          let kept = stays moved start t done in
          let same : insert k t.order db.orders ≡ db'.orders = ground arith in
          let there = ap (lookup o) (sym same) ∙ lookup-insert o k t.order db.orders in
          elim (Bool-cases (o == k)) [
            | inr apart ↦ ground (arith, there)
            | inl at ↦
                let here : o ≡ k = (==_iff o k).0 at in
                let after : is_in t.order.status paid_statuses ≡ true = ground (arith, there) in
                let before = kept after in ground (arith, here, found, before)
          ]
    ]

pub with_order-NoneEnters :
    (k : Uuid) (work : SagaState → Result (Bool × SagaState)) (db db' : OrderDb)
    → ((moved : Bool) (s t : SagaState) → work s ≡ ok (moved, t) → Stays s t)
    → with_order k work db ≡ ok db'
    → NoneEnters db db'
unfolding with_order
with_order-NoneEnters k work db db' stays e = elim (Option-cases (lookup k db.orders)) [
  | inl missing ↦ let same : db ≡ db' = ground arith in subst (NoneEnters db) same (λ o h. h)
  | inr (x, found) ↦ with_row-NoneEnters k x work db db' stays found (ground arith)
]
