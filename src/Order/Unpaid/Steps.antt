-- ===== src/Order/Unpaid/Steps.antt =====
-- What each transaction of services/order/app/{consumer,services}.py does to the set of paid orders.
use inventory_management_sys.Prelude.{
  ◌≡◌, ◌≢◌, sym, subst, ap, ◌∙◌, ◌⊎◌, inl, inr, Bool, true, not, ◌&&◌, List, ℕ, Option, none, some,
  String, lookup, insert, lookup-insert, ◌==◌, ==_iff, if◌then◌else◌, Uuid, Datetime, arith,
  Bool-cases, Option-cases,
}
use inventory_management_sys.Common.Errors.{ok, Result-cases}
use inventory_management_sys.Common.OrderStatus.{
  OrderStatus, is_in, customer_cancellable, paid_statuses,
}
use inventory_management_sys.Order.Models.{Order, OrderDb, ProductSnapshot}
use inventory_management_sys.Order.Saga.{cancel, transition, on_payment_succeeded}
use inventory_management_sys.Order.Consumer.{with_row, with_order, Message, upsert_snapshot, handle}
use inventory_management_sys.Order.Service.{
  get_for_user, cancel_order, admin_move, ship_order, deliver_order,
}
use inventory_management_sys.Order.Checkout.{
  CreateOrderRequest, Race, get_by_idempotency_key, priced, new_order, store_order, flush_order,
  create_order, fit_checks,
}
use inventory_management_sys.Order.History.{Step, handles, creates, cancels, ships, delivers}
use inventory_management_sys.Order.Unpaid.{
  paid_in, NoneEnters, with_row-NoneEnters, with_order-NoneEnters, transition-Stays,
  on_inventory_reserved-Stays, on_reservation_failed-Stays, on_payment_failed-Stays, cancel-Stays,
}

admin_move-NoneEnters :
    (now : Datetime) (target : OrderStatus) (reason : String) (o : Uuid) (db db' : OrderDb)
    → target ≢ OrderStatus.paid
    → admin_move now target reason o db ≡ ok db'
    → NoneEnters db db'
unfolding admin_move
admin_move-NoneEnters now target reason o db db' other e =
    elim (Option-cases (lookup o db.orders)) [
      | inl missing ↦ absurd (ground arith)
      | inr (x, found) ↦
          with_row-NoneEnters o x (transition now target (some reason) true) db db'
            (λ moved s t. transition-Stays now target (some reason) true moved s t other) found
            (ground arith)
    ]

cancel_order-NoneEnters :
    (now : Datetime) (o caller : Uuid) (is_admin : Bool) (reason : String) (db db' : OrderDb)
    → cancel_order now o caller is_admin reason db ≡ ok db'
    → NoneEnters db db'
unfolding cancel_order get_for_user
cancel_order-NoneEnters now o caller is_admin reason db db' e =
    let actor : String = if is_admin then "admin" else "customer" in
    elim (Option-cases (lookup o db.orders)) [
      | inl missing ↦ absurd (ground arith)
      | inr (x, found) ↦ elim (Bool-cases (not is_admin && not (x.user_id == caller))) [
        | inl foreign ↦ absurd (ground arith)
        | inr own ↦ elim (Bool-cases (is_in x.status customer_cancellable)) [
          | inr late ↦ absurd (ground arith)
          | inl may ↦
              with_row-NoneEnters o x (cancel now reason actor) db db'
                (λ moved s t. cancel-Stays now moved s t reason actor) found (ground arith)
        ]
      ]
    ]

-- A new order is PENDING.
store_order-NoneEnters :
    (i u : Uuid) (body : CreateOrderRequest) (key : String) (lines : List (ProductSnapshot × ℕ))
    (currency : String) (db : OrderDb)
    → NoneEnters db (store_order (new_order i u body key lines currency) lines db)
unfolding store_order new_order paid_in paid_statuses
store_order-NoneEnters i u body key lines currency db o h =
    let order = new_order i u body key lines currency in
    ground (arith, lookup-insert o i order db.orders)

create_order-NoneEnters :
    (race : Race) (i u : Uuid) (body : CreateOrderRequest) (key : String) (db : OrderDb)
    (result : Order × Bool) (db' : OrderDb)
    → create_order race i u body key db ≡ ok (result, db')
    → NoneEnters db db'
unfolding create_order flush_order
create_order-NoneEnters race i u body key db result db' e =
    elim (Option-cases (get_by_idempotency_key key db.orders)) [
      | inr (x, found) ↦ elim (Bool-cases (x.user_id == u)) [
        | inl own ↦ let same : db ≡ db' = ground arith in subst (NoneEnters db) same (λ o h. h)
        | inr other ↦ absurd (ground arith)
      ]
      | inl missing ↦ elim (Result-cases (priced db.products body.items)) [
        | inr (bad, failed) ↦ absurd (ground arith)
        | inl ((lines, currency), done) ↦ stored race lines currency (ground arith)
      ]
    ]
  where
    stored :
        (race : Race) (lines : List (ProductSnapshot × ℕ)) (currency : String)
        → flush_order race (new_order i u body key lines currency) lines db ≡ ok (result, db')
        → NoneEnters db db'
    stored (Race.lost_to other) lines currency h =
        let same : db ≡ db' = ground arith in subst (NoneEnters db) same (λ o h. h)
    stored Race.contended lines currency h = absurd (ground arith)
    stored Race.calm lines currency h = elim (Bool-cases (fit_checks lines)) [
      | inr bad ↦ absurd (ground arith)
      | inl good ↦
          let same : store_order (new_order i u body key lines currency) lines db ≡ db' =
            ground arith in
          subst (NoneEnters db) same (store_order-NoneEnters i u body key lines currency db)
    ]

-- Handling payment.succeeded for order k touches no other order.
payment_succeeded-paid_in :
    (now : Datetime) (k : Uuid) (db db' : OrderDb)
    → handle now (Message.payment_succeeded k) db ≡ ok db'
    → (o : Uuid) → paid_in o db' ≡ true
    → (paid_in o db ≡ true) ⊎ (o ≡ k)
unfolding handle with_order with_row paid_in
payment_succeeded-paid_in now k db db' e o h = elim (Bool-cases (o == k)) [
  | inl at ↦ inr ((==_iff o k).0 at)
  | inr apart ↦ inl (elim (Option-cases (lookup k db.orders)) [
    | inl missing ↦ let same : db ≡ db' = ground arith in ground arith
    | inr (x, found) ↦
        elim (Result-cases (on_payment_succeeded now (record { order = x; outbox = db.outbox }))) [
          | inr (bad, failed) ↦ absurd (ground arith)
          | inl ((moved, t), done) ↦
              let same : insert k t.order db.orders ≡ db'.orders = ground arith in
              let there = ap (lookup o) (sym same) ∙ lookup-insert o k t.order db.orders in
              ground (arith, there)
        ]
  ])
]

-- The order that an event says was paid.
abbrev pub pays : Message → Option Uuid
pays (Message.payment_succeeded order_id) = some order_id
pays _ = none

handle-paid_in :
    (now : Datetime) (m : Message) (db db' : OrderDb)
    → handle now m db ≡ ok db'
    → (o : Uuid) → paid_in o db' ≡ true
    → (paid_in o db ≡ true) ⊎ (pays m ≡ some o)
unfolding handle upsert_snapshot paid_in
handle-paid_in now (Message.inventory_reserved k) db db' e o h =
    inl (with_order-NoneEnters k _ db db' (on_inventory_reserved-Stays now) e o h)
handle-paid_in now (Message.reservation_failed k reason) db db' e o h =
    inl (
      with_order-NoneEnters k _ db db' (λ m s t. on_reservation_failed-Stays now m s t reason) e o
        h)
handle-paid_in now (Message.payment_failed k code message) db db' e o h = inl (
    with_order-NoneEnters k _ db db' (λ m s t. on_payment_failed-Stays now m s t code message) e o
      h)
handle-paid_in now (Message.product_upserted event) db db' e o h =
    let same : db.orders ≡ db'.orders = ground arith in inl (ground (arith, same))
handle-paid_in now (Message.payment_succeeded k) db db' e o h =
    elim (payment_succeeded-paid_in now k db db' e o h) [
      | inl was ↦ inl was
      | inr here ↦ inr (ap some (sym here))
    ]

-- The event that a transaction handles, if it handles one.
abbrev pub handled : {s t : OrderDb} → Step s t → Option Message
handled (handles now m e) = some m
handled _ = none

-- Only the handling of payment.succeeded for an order brings it into a paid status.
pub Step-paid_in :
    {s t : OrderDb} (step : Step s t) (o : Uuid)
    → paid_in o t ≡ true
    → (paid_in o s ≡ true) ⊎ (handled step ≡ some (Message.payment_succeeded o))
unfolding ship_order deliver_order
Step-paid_in {s} {t} (handles now m e) o h = elim (handle-paid_in now m s t e o h) [
  | inl was ↦ inl was
  | inr pay ↦ inr (ap some (payment_of m o pay))
]
  where
    payment_of : (m : Message) (o : Uuid) → pays m ≡ some o → m ≡ Message.payment_succeeded o
    payment_of (Message.payment_succeeded k) o pay =
        let same : k ≡ o = cc in ap Message.payment_succeeded same
    payment_of (Message.inventory_reserved k) o pay = absurd (cc)
    payment_of (Message.reservation_failed k reason) o pay = absurd (cc)
    payment_of (Message.payment_failed k code message) o pay = absurd (cc)
    payment_of (Message.product_upserted event) o pay = absurd (cc)
Step-paid_in {s} {t} (creates race i u body key result e) o h =
    inl (create_order-NoneEnters race i u body key s result t e o h)
Step-paid_in {s} {t} (cancels now k caller is_admin reason e) o h =
    inl (cancel_order-NoneEnters now k caller is_admin reason s t e o h)
Step-paid_in {s} {t} (ships now k e) o h =
    inl (admin_move-NoneEnters now OrderStatus.shipped "dispatched" k s t (λ x. absurd (cc)) e o h)
Step-paid_in {s} {t} (delivers now k e) o h =
    inl (admin_move-NoneEnters now OrderStatus.delivered "delivered" k s t (λ x. absurd (cc)) e o h)
