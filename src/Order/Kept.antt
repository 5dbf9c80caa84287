-- ===== src/Order/Kept.antt =====
-- Every order of the database stays valid: the consumer's handlers, the customer's and the admin's
-- operations, and checkout, in services/order/app/{consumer,services}.py.
use inventory_management_sys.Prelude.{
  ℕ, ◌≡◌, ◌≢◌, refl, subst, sym, ◌∙◌, ap, inl, inr, Bool, true, not, ◌&&◌, List, some, String,
  lookup, insert, lookup-insert_self, lookup-insert_ne, ◌==◌, ==_iff, if◌then◌else◌, Uuid, Datetime,
  arith, Bool-cases, Option-cases,
}
use inventory_management_sys.Common.Errors.{Result, ok, Result-cases}
use inventory_management_sys.Common.OrderStatus.{
  OrderStatus, is_in, customer_cancellable, is_terminal, paid_statuses,
}
use inventory_management_sys.Order.Models.{Order, OrderDb, ProductSnapshot}
use inventory_management_sys.Order.Saga.{SagaState, transition, cancel}
use inventory_management_sys.Order.Saga.Trail.{IsValid, was_paid}
use inventory_management_sys.Order.Saga.Handlers.{
  Keeps, transition-Keeps, on_inventory_reserved-Keeps, on_reservation_failed-Keeps,
  on_payment_succeeded-Keeps, on_payment_failed-Keeps, cancel-Keeps,
}
use inventory_management_sys.Order.Consumer.{with_row, with_order, Message, upsert_snapshot, handle}
use inventory_management_sys.Order.Service.{
  get_for_user, cancel_order, admin_move, ship_order, deliver_order,
}
use inventory_management_sys.Order.Checkout.{
  CreateOrderRequest, Race, get_by_idempotency_key, priced, new_order, store_order, flush_order,
  create_order, fit_checks,
}

-- Every row of `orders` is valid and stands under its own id.
abbrev pub AllValid : OrderDb → Type 0
AllValid db = (o : Uuid) (x : Order) → lookup o db.orders ≡ some x → IsValid x × (x.id ≡ o)

insert-AllValid :
    (o : Uuid) (x : Order) (db db' : OrderDb)
    → AllValid db
    → IsValid x × (x.id ≡ o)
    → db'.orders ≡ insert o x db.orders
    → AllValid db'
insert-AllValid o x db db' v new e k y found = elim (Bool-cases (k == o)) [
  | inl here ↦
      let same : k ≡ o = (==_iff k o).0 here in
      let it : x ≡ y = ground (arith, lookup-insert_self o x db.orders) in
      (subst IsValid it new.0, ap (λ z. z.id) (sym it) ∙ new.1 ∙ sym same)
  | inr there ↦
      let apart : k ≢ o = λ same. ground arith in
      v k y (sym (lookup-insert_ne k o x db.orders apart) ∙ ap (lookup k) (sym e) ∙ found)
]

-- A unit of work that keeps its order valid keeps every order valid.
with_row-AllValid :
    (o : Uuid) (x : Order) (work : SagaState → Result (Bool × SagaState)) (db db' : OrderDb)
    → ((moved : Bool) (s t : SagaState) → work s ≡ ok (moved, t) → Keeps s t)
    → AllValid db
    → lookup o db.orders ≡ some x
    → with_row o x work db ≡ ok db'
    → AllValid db'
unfolding with_row
with_row-AllValid o x work db db' kept v found e =
    let start : SagaState = record { order = x; outbox = db.outbox } in
    elim (Result-cases (work start)) [
      | inr (bad, failed) ↦ absurd (ground arith)
      | inl ((moved, t), done) ↦
          let k = kept moved start t done in
          let (valid, own) = v o x found in
          let same : (record db { orders = insert o t.order db.orders; outbox = t.outbox }) ≡ db' =
            ground arith in
          insert-AllValid o t.order db db' v (k.valid valid, k.same_id ∙ own)
            (ap (λ z. z.orders) (sym same))
    ]

with_order-AllValid :
    (o : Uuid) (work : SagaState → Result (Bool × SagaState)) (db db' : OrderDb)
    → ((moved : Bool) (s t : SagaState) → work s ≡ ok (moved, t) → Keeps s t)
    → AllValid db
    → with_order o work db ≡ ok db'
    → AllValid db'
unfolding with_order
with_order-AllValid o work db db' kept v e = elim (Option-cases (lookup o db.orders)) [
  | inl missing ↦ let same : db ≡ db' = ground arith in subst AllValid same v
  | inr (x, found) ↦ with_row-AllValid o x work db db' kept v found (ground arith)
]

-- Whatever event the order consumer handles, if every order of the database is valid (its history
-- is a legal path from PENDING to its status, completed_at is set exactly in the terminal
-- statuses, a failure reason stands only in FAILED, and outside CANCELLED the history entered PAID
-- exactly if the status is a paid one) and stands under its own id, and the handler commits, then
-- the same holds of the database it leaves.
pub handle-AllValid :
    (now : Datetime) (m : Message) (db db' : OrderDb)
    → AllValid db
    → handle now m db ≡ ok db'
    → AllValid db'
unfolding handle upsert_snapshot
handle-AllValid now (Message.inventory_reserved o) db db' v e =
    with_order-AllValid o _ db db' (on_inventory_reserved-Keeps now) v e
handle-AllValid now (Message.reservation_failed o reason) db db' v e =
    with_order-AllValid o _ db db' (λ m s t. on_reservation_failed-Keeps now m s t reason) v e
handle-AllValid now (Message.payment_succeeded o) db db' v e =
    with_order-AllValid o _ db db' (on_payment_succeeded-Keeps now) v e
handle-AllValid now (Message.payment_failed o code message) db db' v e =
    with_order-AllValid o _ db db' (on_payment_failed-Keeps now code message) v e
handle-AllValid now (Message.product_upserted event) db db' v e =
    let same : upsert_snapshot event db ≡ db' = ground arith in
    λ o x found. v o x (ap (λ z. lookup o z.orders) same ∙ found)

admin_move-AllValid :
    (now : Datetime) (target : OrderStatus) (reason : String) (o : Uuid) (db db' : OrderDb)
    → AllValid db
    → admin_move now target reason o db ≡ ok db'
    → AllValid db'
unfolding admin_move
admin_move-AllValid now target reason o db db' v e = elim (Option-cases (lookup o db.orders)) [
  | inl missing ↦ absurd (ground arith)
  | inr (x, found) ↦
      with_row-AllValid o x (transition now target (some reason) true) db db'
        (transition-Keeps now target (some reason) true) v found (ground arith)
]

-- If every order of the database is valid and stands under its own id, a cancellation that commits
-- keeps it so.
pub cancel_order-AllValid :
    (now : Datetime) (o caller : Uuid) (is_admin : Bool) (reason : String) (db db' : OrderDb)
    → AllValid db
    → cancel_order now o caller is_admin reason db ≡ ok db'
    → AllValid db'
unfolding cancel_order get_for_user
cancel_order-AllValid now o caller is_admin reason db db' v e =
    let work = cancel now reason (if is_admin then "admin" else "customer") in
    elim (Option-cases (lookup o db.orders)) [
      | inl missing ↦ absurd (ground arith)
      | inr (x, found) ↦ elim (Bool-cases (not is_admin && not (x.user_id == caller))) [
        | inl foreign ↦ absurd (ground arith)
        | inr own ↦ elim (Bool-cases (is_in x.status customer_cancellable)) [
          | inr late ↦ absurd (ground arith)
          | inl may ↦
              with_row-AllValid o x work db db'
                (cancel-Keeps now reason (if is_admin then "admin" else "customer")) v found
                (ground arith)
        ]
      ]
    ]

pub ship_order-AllValid :
    (now : Datetime) (o : Uuid) (db db' : OrderDb)
    → AllValid db
    → ship_order now o db ≡ ok db'
    → AllValid db'
unfolding ship_order
ship_order-AllValid now o db db' v e =
    admin_move-AllValid now OrderStatus.shipped "dispatched" o db db' v e

pub deliver_order-AllValid :
    (now : Datetime) (o : Uuid) (db db' : OrderDb)
    → AllValid db
    → deliver_order now o db ≡ ok db'
    → AllValid db'
unfolding deliver_order
deliver_order-AllValid now o db db' v e =
    admin_move-AllValid now OrderStatus.delivered "delivered" o db db' v e

new_order-IsValid :
    (i u : Uuid) (body : CreateOrderRequest) (key : String) (lines : List (ProductSnapshot × ℕ))
    (currency : String)
    → IsValid (new_order i u body key lines currency)
      × ((new_order i u body key lines currency).id ≡ i)
unfolding new_order is_terminal paid_statuses was_paid
new_order-IsValid i u body key lines currency = (
  record {
    trail = (refl, (refl, refl));
    completed = refl;
    failure = λ h. refl;
    paid = λ h. refl;
    short = omega arith;
  },
  refl,
)

-- If every order of the database is valid and stands under its own id, a checkout that commits
-- keeps it so, whether it creates an order, repeats one or loses the race for its key.
pub create_order-AllValid :
    (race : Race) (i u : Uuid) (body : CreateOrderRequest) (key : String) (db : OrderDb)
    (result : Order × Bool) (db' : OrderDb)
    → AllValid db
    → create_order race i u body key db ≡ ok (result, db')
    → AllValid db'
unfolding create_order flush_order store_order
create_order-AllValid race i u body key db result db' v e =
    elim (Option-cases (get_by_idempotency_key key db.orders)) [
      | inr (x, found) ↦ elim (Bool-cases (x.user_id == u)) [
        | inl own ↦ let same : db ≡ db' = ground arith in subst AllValid same v
        | inr other ↦ absurd (ground arith)
      ]
      | inl missing ↦ elim (Result-cases (priced db.products body.items)) [
        | inr (bad, failed) ↦ absurd (ground arith)
        | inl ((lines, currency), done) ↦ stored race lines currency (ground arith)
      ]
    ]
  where
    stored :
        (race : Race) (lines : List (ProductSnapshot × ℕ)) (currency : String)
        → flush_order race (new_order i u body key lines currency) lines db ≡ ok (result, db')
        → AllValid db'
    stored (Race.lost_to other) lines currency h =
        let same : db ≡ db' = ground arith in subst AllValid same v
    stored Race.contended lines currency h = absurd (ground arith)
    stored Race.calm lines currency h = elim (Bool-cases (fit_checks lines)) [
      | inr bad ↦ absurd (ground arith)
      | inl good ↦
          let order = new_order i u body key lines currency in
          let (valid, own) = new_order-IsValid i u body key lines currency in
          let same : store_order order lines db ≡ db' = ground arith in
          insert-AllValid i order db db' v (valid, own)
            (ap (λ z. z.orders) (sym same) ∙ ap (λ k. insert k order db.orders) own)
    ]
