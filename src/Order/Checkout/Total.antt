-- ===== src/Order/Checkout/Total.antt =====
-- What `create_order` charges: the prices are those of the service's own snapshots, never the
-- client's, and the total is the sum over the rows that are stored.
use inventory_management_sys.Prelude.{
  ℕ, ◌≡◌, refl, ◌∙◌, sym, subst, inl, inr, true, ◌&&◌, map, List, [], ◌∷◌, some, String, ℤ, pos,
  ◌+ℤ◌, int_laws, Dict, lookup, insert, lookup-insert_self, eq_of_parts, Uuid, Decimal, ◌==◌, arith,
  Bool-cases, Option-cases,
}
use inventory_management_sys.Common.Errors.{ok, Result-cases}
use inventory_management_sys.Order.Models.{Order, OrderItem, OrderDb, ProductSnapshot}
use inventory_management_sys.Order.Checkout.{
  CreateOrderRequest, Race, get_by_idempotency_key, times, find_all, all_active, one_currency,
  priced, order_item, add_lines, fit_checks, new_order, store_order, flush_order, create_order,
}

-- The price of a list of items.
unfoldable pub total_of : List OrderItem → Decimal
total_of [] = pos 0
total_of (item ∷ items) = times item.unit_price item.quantity +ℤ total_of items

-- Each item row is a requested line at the price of a snapshot that is for sale.
abbrev pub PricedAs : Dict ProductSnapshot → List (Uuid × ℕ) → List OrderItem → Type 0
PricedAs products [] [] = Unit
PricedAs products [] (_ ∷ _) = ⊥
PricedAs products (_ ∷ _) [] = ⊥
PricedAs products ((product_id, quantity) ∷ lines) (item ∷ items) =
    ((snapshot : ProductSnapshot) × (lookup product_id products ≡ some snapshot)
      × (snapshot.is_active ≡ true)
      × (item.unit_price ≡ snapshot.price)
      × (item.quantity ≡ quantity))
    × PricedAs products lines items

+ℤ_assoc : (a b c : ℤ) → a +ℤ b +ℤ c ≡ a +ℤ (b +ℤ c)
+ℤ_assoc a b c = eq_of_parts _ _ (omega int_laws)

+ℤ_zero : (a : ℤ) → a ≡ a +ℤ pos 0
+ℤ_zero a = eq_of_parts _ _ (omega int_laws)

zero_+ℤ : (a : ℤ) → pos 0 +ℤ a ≡ a
zero_+ℤ a = eq_of_parts _ _ (omega int_laws)

add_lines-total_of :
    (total : Decimal) (lines : List (ProductSnapshot × ℕ))
    → add_lines total lines ≡ total +ℤ total_of (map order_item lines)
unfolding add_lines total_of order_item
add_lines-total_of total [] = +ℤ_zero total
add_lines-total_of total ((snapshot, quantity) ∷ lines) =
    add_lines-total_of (total +ℤ times snapshot.price quantity) lines
    ∙ +ℤ_assoc total (times snapshot.price quantity) (total_of (map order_item lines))

find_all-PricedAs :
    (products : Dict ProductSnapshot) (items : List (Uuid × ℕ)) (lines : List (ProductSnapshot × ℕ))
    → find_all products items ≡ ok lines
    → all_active lines ≡ true
    → PricedAs products items (map order_item lines)
unfolding find_all all_active order_item
find_all-PricedAs products [] [] e active = tt
find_all-PricedAs products [] (_ ∷ _) e active = absurd (ground arith)
find_all-PricedAs products ((k, q) ∷ items) lines e active =
    elim (Option-cases (lookup k products)) [
      | inl missing ↦ absurd (ground arith)
      | inr (snapshot, found) ↦ elim (Result-cases (find_all products items)) [
        | inr (bad, failed) ↦ absurd (ground arith)
        | inl (rest, done) ↦
            let same : ((snapshot, q) ∷ rest) ≡ lines = ground arith in
            let sold : (snapshot.is_active && all_active rest) ≡ true =
              subst (λ l. all_active l ≡ true) (sym same) active in
            subst (λ l. PricedAs products ((k, q) ∷ items) (map order_item l)) same
              (
                (snapshot, found, ground arith, refl, refl),
                find_all-PricedAs products items rest done (ground arith),
              )
      ]
    ]

priced-PricedAs :
    (products : Dict ProductSnapshot) (items : List (Uuid × ℕ)) (lines : List (ProductSnapshot × ℕ))
    (currency : String)
    → priced products items ≡ ok (lines, currency)
    → PricedAs products items (map order_item lines)
unfolding priced
priced-PricedAs products items lines currency e = elim (Result-cases (find_all products items)) [
  | inr (bad, failed) ↦ absurd (ground arith)
  | inl (found, done) ↦ elim (Bool-cases (all_active found)) [
    | inr withdrawn ↦ absurd (ground arith)
    | inl active ↦ elim (Result-cases (one_currency found)) [
      | inr (bad, failed) ↦ absurd (ground arith)
      | inl (c, one) ↦
          let same : found ≡ lines = ground arith in
          subst (λ l. PricedAs products items (map order_item l)) same
            (find_all-PricedAs products items found done active)
    ]
  ]
]

-- The row before it is stored.
new_order-total :
    (i u : Uuid) (body : CreateOrderRequest) (key : String) (lines : List (ProductSnapshot × ℕ))
    (currency : String) (o : Order)
    → o ≡ new_order i u body key lines currency
    → ((o.id ≡ i) × (o.user_id ≡ u))
      × (o.total_amount ≡ total_of o.items)
      × (o.items ≡ map order_item lines)
unfolding new_order total_of order_item
new_order-total i u body key lines currency o e =
    subst
      (λ o.
        ((o.id ≡ i) × (o.user_id ≡ u))
        × (o.total_amount ≡ total_of o.items)
        × (o.items ≡ map order_item lines))
      (sym e)
      ((
        (refl, refl),
        add_lines-total_of (pos 0) lines ∙ zero_+ℤ (total_of (map order_item lines)),
        refl,
      ))

store_order-lookup :
    (i : Uuid) (order : Order) (lines : List (ProductSnapshot × ℕ)) (db : OrderDb)
    → order.id ≡ i
    → lookup i (store_order order lines db).orders ≡ some order
unfolding store_order
store_order-lookup i order lines db own =
    subst (λ k. lookup i (insert k order db.orders) ≡ some order) (sym own)
      (lookup-insert_self i order db.orders)

-- A checkout that creates an order stores it under its fresh id for its user, with one item for
-- each requested line, in order, at the price of a snapshot that is for sale, and a total that is
-- the sum of price times quantity over those items.
pub create_order-total :
    (race : Race) (i u : Uuid) (body : CreateOrderRequest) (key : String) (db : OrderDb)
    (order : Order) (db' : OrderDb)
    → create_order race i u body key db ≡ ok ((order, true), db')
    → (lookup i db'.orders ≡ some order)
      × (order.user_id ≡ u)
      × PricedAs db.products body.items order.items
      × (order.total_amount ≡ total_of order.items)
unfolding create_order flush_order
create_order-total race i u body key db order db' e =
    elim (Option-cases (get_by_idempotency_key key db.orders)) [
      | inr (x, found) ↦ elim (Bool-cases (x.user_id == u)) [
        | inl own ↦ absurd (ground arith)
        | inr other ↦ absurd (ground arith)
      ]
      | inl missing ↦ elim (Result-cases (priced db.products body.items)) [
        | inr (bad, failed) ↦ absurd (ground arith)
        | inl ((lines, currency), done) ↦
            stored race lines currency (priced-PricedAs db.products body.items lines currency done)
              (ground arith)
      ]
    ]
  where
    stored :
        (race : Race) (lines : List (ProductSnapshot × ℕ)) (currency : String)
        → PricedAs db.products body.items (map order_item lines)
        → flush_order race (new_order i u body key lines currency) lines db
          ≡ ok ((order, true), db')
        → (lookup i db'.orders ≡ some order)
          × (order.user_id ≡ u)
          × PricedAs db.products body.items order.items
          × (order.total_amount ≡ total_of order.items)
    stored (Race.lost_to other) lines currency p h = absurd (ground arith)
    stored Race.contended lines currency p h = absurd (ground arith)
    stored Race.calm lines currency p h = elim (Bool-cases (fit_checks lines)) [
      | inr bad ↦ absurd (ground arith)
      | inl good ↦
          let made = new_order i u body key lines currency in
          let (own, total, items) = new_order-total i u body key lines currency made refl in
          let same : (made ≡ order) × (store_order made lines db ≡ db') =
            (ground arith, ground arith) in
          (
            subst (λ d. lookup i d.orders ≡ some order) same.1
                (subst (λ o. lookup i (store_order made lines db).orders ≡ some o) same.0
                  (store_order-lookup i made lines db (own.0))),
            subst (λ o. o.user_id ≡ u) same.0 own.1,
            subst (λ o. PricedAs db.products body.items o.items) same.0 (rw items p),
            subst (λ o. o.total_amount ≡ total_of o.items) same.0 total,
          )
    ]
