-- ===== src/Inventory/Announces.antt =====
-- No transaction of services/inventory/app/services.py takes back an announced reservation.
pub mod Steps
use inventory_management_sys.Prelude.{
  ℕ, suc, ◌+◌, ◌≡◌, ◌≤◌, refl, sym, ap, subst, inl, inr, Bool, true, false, List, [], ◌∷◌, Option,
  none, some, String, ℤ, pos, ◌+ℤ◌, ◌-ℤ◌, lookup, take, Uuid, Datetime, ◌==◌, if◌then◌else◌, arith,
  Bool-cases, Option-cases,
}
use inventory_management_sys.Common.Errors.{Result, ok, err, Result-cases, column}
use inventory_management_sys.Common.Events.{Topic, Payload, LedgerReason, InsufficientItem}
use inventory_management_sys.Common.Outbox.{OutboxRow, enqueue_event}
use inventory_management_sys.Inventory.Models.{
  Inventory, Settings, StockItem, Reservation, ReservationStatus, is_low,
}
use inventory_management_sys.Inventory.Records.{
  record_ledger, publish, publish_stock_changed, maybe_publish_low_stock, publish_reserved,
  publish_reservation_failed, put_row, put_reservation, lock,
}
use inventory_management_sys.Inventory.Settle.{
  settle_row, settle_delta, some_of, commit_from, release_from, settle_item, settle_items, settle,
  commit_reservation, restock_committed, release_reservation, stale_reservations, expire_all,
  expire_stale_reservations,
}

-- Whether an event announces a reservation for the order, as a number.
abbrev pub reserves : Uuid → Payload → ℕ
reserves o (Payload.reserved event) = if o == event.order_id then 1 else 0
reserves o _ = 0

-- How many rows of the outbox announce a reservation for the order.
unfoldable pub times_reserved : Uuid → List OutboxRow → ℕ
times_reserved o [] = 0
times_reserved o (row ∷ rows) = reserves o row.payload + times_reserved o rows

abbrev pub Grows : Inventory → Inventory → Type 0
Grows s t = (o : Uuid) → times_reserved o s.outbox ≤ times_reserved o t.outbox

pub Grows-trans : (s t u : Inventory) → Grows s t → Grows t u → Grows s u
Grows-trans s t u a b o = omega (arith, a o, b o)

pub Grows-same : (s t : Inventory) → s.outbox ≡ t.outbox → Grows s t
Grows-same s t e o = rw e (omega arith)

pub publish-Grows :
    (topic : Topic) (key : Uuid) (payload : Payload) (s : Inventory)
    → Grows s (publish topic key payload s)
unfolding publish times_reserved enqueue_event
publish-Grows topic key payload s o = enqueue s.outbox
  where
    enqueue :
        (rows : List OutboxRow)
        → times_reserved o rows ≤ times_reserved o (enqueue_event topic key payload key rows)
    enqueue [] = omega arith
    enqueue (row ∷ rows) = omega (arith, enqueue rows)

pub maybe_publish_low_stock-Grows :
    (row : StockItem) (s : Inventory) → Grows s (maybe_publish_low_stock row s)
unfolding maybe_publish_low_stock
maybe_publish_low_stock-Grows row s = elim (Bool-cases (is_low row)) [
  | inl low ↦ rw low (publish-Grows Topic.inventory_low_stock row.product_id _ s)
  | inr fine ↦ rw fine (Grows-same s s refl)
]

pub publish_stock_changed-Grows :
    (row : StockItem) (reason : LedgerReason) (order_id : Option Uuid) (s : Inventory)
    → Grows s (publish_stock_changed row reason order_id s)
unfolding publish_stock_changed
publish_stock_changed-Grows row reason order_id s =
    publish-Grows Topic.inventory_stock_changed row.product_id _ s

settle_item-Grows :
    (reason : LedgerReason) (k product_id : Uuid) (q : ℕ) (s t : Inventory)
    → settle_item reason k product_id q s ≡ ok t
    → Grows s t
unfolding settle_item record_ledger publish_stock_changed put_row lock
settle_item-Grows reason k product_id q s t e = elim (Option-cases (lookup product_id s.stock)) [
  | inl missing ↦ let same : s ≡ t = ground arith in subst (Grows s) same (Grows-same s s refl)
  | inr (old, found) ↦ elim (Result-cases (settle_row reason q old)) [
    | inr (x, failed) ↦ absurd (ground arith)
    | inl (row, done) ↦
        let before =
          record_ledger product_id (settle_delta reason q) reason (some k) row.available_qty
            (put_row product_id row (lock product_id s)) in
        let same : publish_stock_changed row reason (some k) before ≡ t = ground arith in
        subst (Grows s) same (publish_stock_changed-Grows row reason (some k) before)
  ]
]

settle_items-Grows :
    (reason : LedgerReason) (k : Uuid) (items : List (Uuid × ℕ)) (s t : Inventory)
    → settle_items reason k items s ≡ ok t
    → Grows s t
unfolding settle_items
settle_items-Grows reason k [] s t e =
    let same : s ≡ t = ground arith in subst (Grows s) same (Grows-same s s refl)
settle_items-Grows reason k ((product_id, q) ∷ items) s t e =
    elim (Result-cases (settle_item reason k product_id q s)) [
      | inr (x, failed) ↦ absurd (ground arith)
      | inl (u, done) ↦
          Grows-trans s u t (settle_item-Grows reason k product_id q s u done)
            (settle_items-Grows reason k items u t (ground arith))
    ]

settle-Grows :
    (reason : LedgerReason) (status : ReservationStatus) (r x : Reservation) (s t : Inventory)
    → settle reason status r s ≡ ok (x, t)
    → Grows s t
unfolding settle put_reservation
settle-Grows reason status r x s t e =
    elim (Result-cases (settle_items reason r.order_id r.items s)) [
      | inr (y, failed) ↦ absurd (ground arith)
      | inl (u, done) ↦
          Grows-trans s u t (settle_items-Grows reason r.order_id r.items s u done)
            (Grows-same u t (ground arith))
    ]

-- A settled reservation that a call returns.
settled-Grows :
    (reason : LedgerReason) (status : ReservationStatus) (r : Reservation) (x : Option Reservation)
    (s t : Inventory)
    → some_of (settle reason status r s) ≡ ok (x, t)
    → Grows s t
settled-Grows reason status r x s t e = elim (Result-cases (settle reason status r s)) [
  | inr (y, failed) ↦ absurd (ground arith)
  | inl ((y, u), done) ↦
      let same : u ≡ t = ground arith in
      subst (Grows s) same (settle-Grows reason status r y s u done)
]

pub unchanged : (s t : Inventory) → s ≡ t → Grows s t
unchanged s t same = subst (Grows s) same (Grows-same s s refl)

commit_from-Grows :
    (status : ReservationStatus) (r : Reservation) (x : Option Reservation) (s t : Inventory)
    → commit_from status r s ≡ ok (x, t)
    → Grows s t
commit_from-Grows ReservationStatus.held r x s t e =
    settled-Grows LedgerReason.commit ReservationStatus.committed r x s t e
commit_from-Grows ReservationStatus.committed r x s t e = unchanged s t (ground arith)
commit_from-Grows ReservationStatus.released r x s t e = unchanged s t (ground arith)
commit_from-Grows ReservationStatus.expired r x s t e = unchanged s t (ground arith)

release_from-Grows :
    (status : ReservationStatus) (r : Reservation) (x : Option Reservation) (s t : Inventory)
    → release_from status r s ≡ ok (x, t)
    → Grows s t
unfolding restock_committed
release_from-Grows ReservationStatus.held r x s t e =
    settled-Grows LedgerReason.release ReservationStatus.released r x s t e
release_from-Grows ReservationStatus.committed r x s t e =
    settled-Grows LedgerReason.restock ReservationStatus.released r x s t e
release_from-Grows ReservationStatus.released r x s t e = unchanged s t (ground arith)
release_from-Grows ReservationStatus.expired r x s t e = unchanged s t (ground arith)

pub commit_reservation-Grows :
    (k : Uuid) (x : Option Reservation) (s t : Inventory)
    → commit_reservation k s ≡ ok (x, t)
    → Grows s t
unfolding commit_reservation
commit_reservation-Grows k x s t e = elim (Option-cases (lookup k s.reservations)) [
  | inl missing ↦ unchanged s t (ground arith)
  | inr (r, found) ↦ commit_from-Grows r.status r x s t (ground arith)
]

pub release_reservation-Grows :
    (k : Uuid) (x : Option Reservation) (s t : Inventory)
    → release_reservation k s ≡ ok (x, t)
    → Grows s t
unfolding release_reservation
release_reservation-Grows k x s t e = elim (Option-cases (lookup k s.reservations)) [
  | inl missing ↦ unchanged s t (ground arith)
  | inr (r, found) ↦ release_from-Grows r.status r x s t (ground arith)
]

expire_all-Grows : (rs : List Reservation) (s t : Inventory) → expire_all rs s ≡ ok t → Grows s t
unfolding expire_all
expire_all-Grows [] s t e = unchanged s t (ground arith)
expire_all-Grows (r ∷ rs) s t e =
    elim (Result-cases (settle LedgerReason.expire ReservationStatus.expired r s)) [
      | inr (y, failed) ↦ absurd (ground arith)
      | inl ((y, u), done) ↦
          Grows-trans s u t
            (settle-Grows LedgerReason.expire ReservationStatus.expired r y s u done)
            (expire_all-Grows rs u t (ground arith))
    ]

pub expire_stale_reservations-Grows :
    (limit : ℕ) (now : Datetime) (elsewhere : Uuid → Bool) (n : ℕ) (s t : Inventory)
    → expire_stale_reservations limit now elsewhere s ≡ ok (n, t)
    → Grows s t
unfolding expire_stale_reservations
expire_stale_reservations-Grows limit now elsewhere n s t e =
    let stale = take limit (stale_reservations now elsewhere s.reservations) in
    elim (Result-cases (expire_all stale s)) [
      | inr (y, failed) ↦ absurd (ground arith)
      | inl (u, done) ↦
          let same : u ≡ t = ground arith in subst (Grows s) same (expire_all-Grows stale s u done)
    ]
