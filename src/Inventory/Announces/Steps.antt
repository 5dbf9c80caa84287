-- ===== src/Inventory/Announces/Steps.antt =====
-- Every transaction of services/inventory/app/{consumer,services}.py keeps what was announced.
use inventory_management_sys.Prelude.{
  ℕ, ◌≡◌, refl, sym, subst, inl, inr, List, [], ◌∷◌, Option, none, some, String, ℤ, pos, ◌+ℤ◌, ◌-ℤ◌,
  Dict, lookup, contains, Uuid, arith, Bool-cases, Option-cases,
}
use inventory_management_sys.Common.Errors.{ok, Result-cases, column}
use inventory_management_sys.Common.Events.{Topic, LedgerReason, InsufficientItem}
use inventory_management_sys.Inventory.Models.{Inventory, Settings, StockItem, Reservation}
use inventory_management_sys.Inventory.Records.{
  record_ledger, publish_stock_changed, maybe_publish_low_stock, publish_reserved,
  publish_reservation_failed, put_row, put_reservation, lock,
}
use inventory_management_sys.Inventory.Reserve.{
  Outside, ReserveRequest, aggregate, sort_by_id, lock_rows, insufficient_items, reserve_item,
  reserve_items, new_reservation, reserve_checked, reserve_new, reserve,
}
use inventory_management_sys.Inventory.Settle.{commit_reservation, release_reservation}
use inventory_management_sys.Inventory.Admin.{
  upsert_row, upsert_stock_item, adjust_stock, threshold_or,
}
use inventory_management_sys.Inventory.Consumer.{Message, handle, reserve_request}
use inventory_management_sys.Inventory.History.{Step, handles, sweeps, upserts, adjusts}
use inventory_management_sys.Inventory.Announces.{
  Grows, Grows-trans, Grows-same, unchanged, publish-Grows, publish_stock_changed-Grows,
  maybe_publish_low_stock-Grows, commit_reservation-Grows, release_reservation-Grows,
  expire_stale_reservations-Grows,
}

-- A change of a stock row that is announced, and its low stock.
told-Grows :
    (row : StockItem) (reason : LedgerReason) (k : Option Uuid) (s u t : Inventory)
    → s.outbox ≡ u.outbox
    → maybe_publish_low_stock row (publish_stock_changed row reason k u) ≡ t
    → Grows s t
told-Grows row reason k s u t e same =
    let middle = publish_stock_changed row reason k u in
    subst (Grows s) same (
      Grows-trans s middle (maybe_publish_low_stock row middle)
        (Grows-trans s u middle (Grows-same s u e) (publish_stock_changed-Grows row reason k u))
        (maybe_publish_low_stock-Grows row middle))

reserve_item-Grows :
    (k product_id : Uuid) (q : ℕ) (s t : Inventory)
    → reserve_item k product_id q s ≡ ok t
    → Grows s t
unfolding reserve_item record_ledger put_row
reserve_item-Grows k product_id q s t e = elim (Option-cases (lookup product_id s.stock)) [
  | inl missing ↦ absurd (ground arith)
  | inr (old, found) ↦ elim (Result-cases (column (pos old.available_qty -ℤ pos q))) [
    | inr (x, failed) ↦ absurd (ground arith)
    | inl (available, fits) ↦ elim (Result-cases (column (pos old.reserved_qty +ℤ pos q))) [
      | inr (x, failed) ↦ absurd (ground arith)
      | inl (reserved, fits') ↦
          let row : StockItem = record old { available_qty = available; reserved_qty = reserved } in
          told-Grows row LedgerReason.reserve (some k) s
            (record_ledger product_id (pos 0 -ℤ pos q) LedgerReason.reserve (some k) available
              (put_row product_id row s))
            t refl (ground arith)
    ]
  ]
]

reserve_items-Grows :
    (k : Uuid) (items : List (Uuid × ℕ)) (s t : Inventory)
    → reserve_items k items s ≡ ok t
    → Grows s t
unfolding reserve_items
reserve_items-Grows k [] s t e = unchanged s t (ground arith)
reserve_items-Grows k ((product_id, q) ∷ items) s t e =
    elim (Result-cases (reserve_item k product_id q s)) [
      | inr (x, failed) ↦ absurd (ground arith)
      | inl (u, done) ↦
          Grows-trans s u t (reserve_item-Grows k product_id q s u done)
            (reserve_items-Grows k items u t (ground arith))
    ]

lock_rows-outbox : (items : List (Uuid × ℕ)) (s : Inventory) → (lock_rows items s).outbox ≡ s.outbox
unfolding lock_rows lock
lock_rows-outbox [] s = refl
lock_rows-outbox ((product_id, q) ∷ items) s = elim (Bool-cases (contains product_id s.stock)) [
  | inl there ↦ ground (arith, lock_rows-outbox items (lock product_id s))
  | inr missing ↦ ground (arith, lock_rows-outbox items s)
]

reserve_checked-Grows :
    (settings : Settings) (o : Outside) (request : ReserveRequest) (wanted : Dict ℕ)
    (short : List InsufficientItem) (x : Option Reservation) (s t : Inventory)
    → reserve_checked settings o request wanted short s ≡ ok (x, t)
    → Grows s t
unfolding reserve_checked publish_reservation_failed publish_reserved put_reservation
reserve_checked-Grows settings o request wanted (a ∷ short) x s t e =
    let same : publish_reservation_failed request.order_id request.user_id "insufficient stock"
          (a ∷ short) s
        ≡ t =
      ground arith in
    subst (Grows s) same (publish-Grows Topic.inventory_reservation_failed request.order_id _ s)
reserve_checked-Grows settings o request wanted [] x s t e = elim (Bool-cases o.raced) [
  | inl lost ↦ absurd (ground arith)
  | inr calm ↦
      let r = new_reservation settings o request wanted in
      let u = put_reservation request.order_id r s in
      elim (Result-cases (reserve_items request.order_id r.items u)) [
        | inr (y, failed) ↦ absurd (ground arith)
        | inl (v, done) ↦
            let told =
              publish_reserved r wanted request.total_amount request.currency request.payment_method
                v in
            let same : told ≡ t = ground arith in
            subst (Grows s) same (
              Grows-trans s v told (reserve_items-Grows request.order_id r.items u v done)
                (publish-Grows Topic.inventory_reserved r.order_id _ v))
      ]
]

reserve-Grows :
    (settings : Settings) (o : Outside) (request : ReserveRequest) (x : Option Reservation)
    (s t : Inventory)
    → reserve settings o request s ≡ ok (x, t)
    → Grows s t
unfolding reserve reserve_new
reserve-Grows settings o request x s t e =
    elim (Option-cases (lookup request.order_id s.reservations)) [
      | inr (r, found) ↦ unchanged s t (ground arith)
      | inl new ↦ elim (Result-cases (aggregate request.items [])) [
        | inr (y, failed) ↦ absurd (ground arith)
        | inl (wanted, sums) ↦
            let locked = lock_rows (sort_by_id wanted) s in
            let short = insufficient_items locked.stock wanted in
            Grows-trans s locked t
              (Grows-same s locked (sym (lock_rows-outbox (sort_by_id wanted) s)))
              (reserve_checked-Grows settings o request wanted short x locked t (ground arith))
      ]
    ]

upsert_stock_item-Grows :
    (upper : String → String) (settings : Settings) (product_id : Uuid) (sku : String)
    (quantity : ℤ) (threshold : Option ℕ) (row : StockItem) (s t : Inventory)
    → upsert_stock_item upper settings product_id sku quantity threshold s ≡ ok (row, t)
    → Grows s t
unfolding upsert_stock_item record_ledger put_row lock
upsert_stock_item-Grows upper settings product_id sku quantity threshold row s t e =
    elim (Result-cases (upsert_row upper settings product_id sku quantity threshold s)) [
      | inr (y, failed) ↦ absurd (ground arith)
      | inl (new, done) ↦
          let before =
            record_ledger product_id quantity LedgerReason.restock none new.available_qty
              (put_row product_id new (lock product_id s)) in
          let same : publish_stock_changed new LedgerReason.restock none before ≡ t =
            ground arith in
          subst (Grows s) same (publish_stock_changed-Grows new LedgerReason.restock none before)
    ]

adjust_stock-Grows :
    (product_id : Uuid) (quantity : ℤ) (threshold : Option ℕ) (row : StockItem) (s t : Inventory)
    → adjust_stock product_id quantity threshold s ≡ ok (row, t)
    → Grows s t
unfolding adjust_stock record_ledger put_row lock
adjust_stock-Grows product_id quantity threshold row s t e =
    elim (Option-cases (lookup product_id s.stock)) [
      | inl missing ↦ absurd (ground arith)
      | inr (old, found) ↦ elim (Result-cases (column quantity)) [
        | inr (y, failed) ↦ absurd (ground arith)
        | inl (available, fits) ↦
            let new : StockItem = record old {
              available_qty = available;
              low_stock_threshold = threshold_or threshold old.low_stock_threshold;
            } in
            told-Grows new LedgerReason.adjust none s
              (record_ledger product_id (quantity -ℤ pos old.available_qty) LedgerReason.adjust none
                available (put_row product_id new (lock product_id s)))
              t refl (ground arith)
      ]
    ]

handle-Grows :
    (settings : Settings) (o : Outside) (message : Message) (s t : Inventory)
    → handle settings o message s ≡ ok t
    → Grows s t
unfolding handle
handle-Grows settings o (Message.order_created event) s t e =
    elim (Result-cases (reserve settings o (reserve_request event) s)) [
      | inr (y, failed) ↦ absurd (ground arith)
      | inl ((x, u), done) ↦ reserve-Grows settings o (reserve_request event) x s t (ground arith)
    ]
handle-Grows settings o (Message.payment_succeeded event) s t e =
    elim (Result-cases (commit_reservation event.order_id s)) [
      | inr (y, failed) ↦ absurd (ground arith)
      | inl ((x, u), done) ↦ commit_reservation-Grows event.order_id x s t (ground arith)
    ]
handle-Grows settings o (Message.payment_failed event) s t e =
    elim (Result-cases (release_reservation event.order_id s)) [
      | inr (y, failed) ↦ absurd (ground arith)
      | inl ((x, u), done) ↦ release_reservation-Grows event.order_id x s t (ground arith)
    ]
handle-Grows settings o (Message.order_cancelled event) s t e =
    elim (Result-cases (release_reservation event.order_id s)) [
      | inr (y, failed) ↦ absurd (ground arith)
      | inl ((x, u), done) ↦ release_reservation-Grows event.order_id x s t (ground arith)
    ]

pub Step-Grows :
    {upper : String → String} {settings : Settings} {s t : Inventory}
    → Step upper settings s t
    → Grows s t
Step-Grows {settings = settings} {s} {t} (handles o message e) =
    handle-Grows settings o message s t e
Step-Grows {settings = settings} {s} {t} (sweeps now elsewhere n e) =
    expire_stale_reservations-Grows settings.sweeper_batch_size now elsewhere n s t e
Step-Grows {upper} {settings} {s} {t} (upserts product_id sku quantity threshold row e) =
    upsert_stock_item-Grows upper settings product_id sku quantity threshold row s t e
Step-Grows {s = s} {t} (adjusts product_id available threshold row e) =
    adjust_stock-Grows product_id available threshold row s t e
