-- ===== src/Order/Checkout/Replay.antt =====
-- `create_order` and its idempotency key: a key that has created an order answers with that order.
use inventory_management_sys.Prelude.{
  ℕ, ◌≡◌, refl, sym, subst, inl, inr, true, false, List, [], ◌∷◌, none, some, String, Dict, lookup,
  insert, Uuid, ◌==◌, if◌then◌else◌, arith, Bool-cases, Option-cases,
}
use text.Mathlib.Text.{◌==◌ as str_eq}
use text.Mathlib.TextPositions.{eq_refl}
use inventory_management_sys.Common.Errors.{Error, ok, err, Result-cases}
use inventory_management_sys.Order.Models.{Order, OrderDb, ProductSnapshot}
use inventory_management_sys.Order.Checkout.{
  CreateOrderRequest, Race, get_by_idempotency_key, priced, new_order, store_order, flush_order,
  create_order, fit_checks,
}

get_by_idempotency_key-insert :
    (key : String) (i : Uuid) (order : Order) (d : Dict Order)
    → get_by_idempotency_key key d ≡ none
    → lookup i d ≡ none
    → order.idempotency_key ≡ some key
    → get_by_idempotency_key key (insert i order d) ≡ some order
unfolding get_by_idempotency_key lookup insert
get_by_idempotency_key-insert key i order [] missing fresh keyed =
    ground (arith, keyed, eq_refl key)
get_by_idempotency_key-insert key i order ((j, x) ∷ d) missing fresh keyed =
    let other : (i == j) ≡ false = ground arith in
    rw other (elim (Option-cases x.idempotency_key) [
      | inl no_key ↦
          rw no_key (
            get_by_idempotency_key-insert key i order d (rw no_key at missing) (ground arith) keyed)
      | inr (k, has) ↦ elim (Bool-cases (str_eq k key)) [
        | inl taken ↦ absurd (ground arith)
        | inr free ↦ rw has (
            rw free
              (get_by_idempotency_key-insert key i order d (ground arith) (ground arith) keyed))
      ]
    ])

new_order-key :
    (i u : Uuid) (body : CreateOrderRequest) (key : String) (lines : List (ProductSnapshot × ℕ))
    (currency : String)
    → ((new_order i u body key lines currency).idempotency_key ≡ some key)
      × ((new_order i u body key lines currency).user_id ≡ u)
      × ((new_order i u body key lines currency).id ≡ i)
unfolding new_order
new_order-key i u body key lines currency = (refl, refl, refl)

-- The order that a checkout creates is the one its key finds, and belongs to its user.
create_order-found :
    (race : Race) (i u : Uuid) (body : CreateOrderRequest) (key : String) (db : OrderDb)
    (order : Order) (db' : OrderDb)
    → lookup i db.orders ≡ none
    → create_order race i u body key db ≡ ok ((order, true), db')
    → (get_by_idempotency_key key db'.orders ≡ some order) × (order.user_id ≡ u)
unfolding create_order flush_order store_order
create_order-found race i u body key db order db' fresh e =
    elim (Option-cases (get_by_idempotency_key key db.orders)) [
      | inr (x, found) ↦ elim (Bool-cases (x.user_id == u)) [
        | inl own ↦ absurd (ground arith)
        | inr other ↦ absurd (ground arith)
      ]
      | inl missing ↦ elim (Result-cases (priced db.products body.items)) [
        | inr (bad, failed) ↦ absurd (ground arith)
        | inl ((lines, currency), done) ↦ stored race lines currency missing (ground arith)
      ]
    ]
  where
    stored :
        (race : Race) (lines : List (ProductSnapshot × ℕ)) (currency : String)
        → get_by_idempotency_key key db.orders ≡ none
        → flush_order race (new_order i u body key lines currency) lines db
          ≡ ok ((order, true), db')
        → (get_by_idempotency_key key db'.orders ≡ some order) × (order.user_id ≡ u)
    stored (Race.lost_to other) lines currency missing h = absurd (ground arith)
    stored Race.contended lines currency missing h = absurd (ground arith)
    stored Race.calm lines currency missing h = elim (Bool-cases (fit_checks lines)) [
      | inr bad ↦ absurd (ground arith)
      | inl good ↦
          let made = new_order i u body key lines currency in
          let (keyed, own, same_id) = new_order-key i u body key lines currency in
          let same : (made ≡ order) × (store_order made lines db ≡ db') =
            (ground arith, ground arith) in
          (
            subst (λ d. get_by_idempotency_key key d.orders ≡ some order) same.1
                (subst (λ o. get_by_idempotency_key key (store_order made lines db).orders ≡ some o)
                  same.0
                  (subst (λ k. get_by_idempotency_key key (insert k made db.orders) ≡ some made)
                    (sym same_id)
                    (get_by_idempotency_key-insert key i made db.orders missing fresh keyed))),
            subst (λ o. o.user_id ≡ u) same.0 own,
          )
    ]

-- Once a checkout under a fresh id has created an order, any later request with the same key on
-- the database it left gets that order and changes nothing if it comes from the same user, and is
-- refused as a conflict if it comes from another, whatever else it asks for.
pub create_order_twice :
    (race again : Race) (i j u caller : Uuid) (body other : CreateOrderRequest) (key : String)
    (db : OrderDb) (order : Order) (db' : OrderDb)
    → lookup i db.orders ≡ none
    → create_order race i u body key db ≡ ok ((order, true), db')
    → create_order again j caller other key db'
      ≡ (if u == caller then ok ((order, false), db') else err Error.conflict)
unfolding create_order
create_order_twice race again i j u caller body other key db order db' fresh e =
    let (found, own) = create_order-found race i u body key db order db' fresh e in
    elim (Bool-cases (u == caller)) [
      | inl same ↦ ground (arith, found, own)
      | inr other ↦ ground (arith, found, own)
    ]
