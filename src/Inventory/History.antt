-- ===== src/Inventory/History.antt =====
-- The inventory's database over time: every committed transaction of the consumer, the sweeper and
-- the administrators is a step, from the empty tables on. Transactions that lock the same rows take
-- turns, so a history is a sequence; the order in which they take turns is not constrained.
use inventory_management_sys.Prelude.{
  ℕ, ◌≡◌, refl, inl, inr, [], lookup, Option, String, ℤ, Bool, Uuid, Datetime, arith,
}
use inventory_management_sys.Common.Errors.{ok, Result-cases}
use inventory_management_sys.Inventory.Models.{Inventory, StockItem, Settings}
use inventory_management_sys.Inventory.Quantities.{
  available_of, reserved_of, held_of, ledger_sum, last_balance,
}
use inventory_management_sys.Inventory.Invariant.{IsValid}
use inventory_management_sys.Inventory.Settle.{
  commit_reservation, release_reservation, expire_stale_reservations,
}
use inventory_management_sys.Inventory.Settle.Operations.{
  commit_reservation-IsValid, release_reservation-IsValid,
}
use inventory_management_sys.Inventory.Settle.Expire.{expire_stale_reservations-IsValid}
use inventory_management_sys.Inventory.Reserve.{Outside, reserve}
use inventory_management_sys.Inventory.Reserve.Refusals.{reserve-IsValid}
use inventory_management_sys.Inventory.Consumer.{Message, reserve_request, handle}
use inventory_management_sys.Inventory.Admin.{upsert_stock_item, adjust_stock}
use inventory_management_sys.Inventory.Admin.Keeps.{
  Rewrites-IsValid, upsert_stock_item-Rewrites, adjust_stock-Rewrites,
}

-- The tables as the first migration leaves them.
abbrev pub empty : Inventory
empty = record { stock = []; reservations = []; ledger = []; outbox = []; locked = [] }

-- The committed transactions. One that raises is rolled back, and is no step.
pub data Step (upper : String → String) (settings : Settings) (s t : Inventory) : Type 0 where
  handles :
      (o : Outside) (message : Message)
      → handle settings o message s ≡ ok t
      → Step upper settings s t
  sweeps :
      (now : Datetime) (elsewhere : Uuid → Bool) (n : ℕ)
      → expire_stale_reservations settings.sweeper_batch_size now elsewhere s ≡ ok (n, t)
      → Step upper settings s t
  upserts :
      (product_id : Uuid) (sku : String) (quantity : ℤ) (threshold : Option ℕ) (row : StockItem)
      → upsert_stock_item upper settings product_id sku quantity threshold s ≡ ok (row, t)
      → Step upper settings s t
  adjusts :
      (product_id : Uuid) (available : ℤ) (threshold : Option ℕ) (row : StockItem)
      → adjust_stock product_id available threshold s ≡ ok (row, t)
      → Step upper settings s t

pub data Reach (upper : String → String) (settings : Settings) : Inventory → Type 0 where
  here : Reach upper settings empty
  next :
      {s t : Inventory} → Reach upper settings s → Step upper settings s t → Reach upper settings t

-- Whatever message the consumer handles, the database it leaves is valid.
handle-IsValid :
    (settings : Settings) (o : Outside) (message : Message) (s t : Inventory)
    → IsValid s
    → handle settings o message s ≡ ok t
    → IsValid t
unfolding handle
handle-IsValid settings o (Message.order_created event) s t v e =
    elim (Result-cases (reserve settings o (reserve_request event) s)) [
      | inr (x, failed) ↦ absurd (ground arith)
      | inl ((x, u), done) ↦
          reserve-IsValid settings o (reserve_request event) x s t v (ground arith)
    ]
handle-IsValid settings o (Message.payment_succeeded event) s t v e =
    elim (Result-cases (commit_reservation event.order_id s)) [
      | inr (x, failed) ↦ absurd (ground arith)
      | inl ((x, u), done) ↦ commit_reservation-IsValid event.order_id x s t v (ground arith)
    ]
handle-IsValid settings o (Message.payment_failed event) s t v e =
    elim (Result-cases (release_reservation event.order_id s)) [
      | inr (x, failed) ↦ absurd (ground arith)
      | inl ((x, u), done) ↦ release_reservation-IsValid event.order_id x s t v (ground arith)
    ]
handle-IsValid settings o (Message.order_cancelled event) s t v e =
    elim (Result-cases (release_reservation event.order_id s)) [
      | inr (x, failed) ↦ absurd (ground arith)
      | inl ((x, u), done) ↦ release_reservation-IsValid event.order_id x s t v (ground arith)
    ]

pub Step-IsValid :
    {upper : String → String} {settings : Settings} {s t : Inventory}
    → Step upper settings s t
    → IsValid s
    → IsValid t
Step-IsValid {settings = settings} {s = s} {t = t} (handles o message e) v =
    handle-IsValid settings o message s t v e
Step-IsValid {s = s} {t = t} (sweeps now elsewhere n e) v =
    expire_stale_reservations-IsValid _ now elsewhere n s t v e
Step-IsValid {upper} {settings} {s} {t} (upserts k sku q threshold row e) v =
    Rewrites-IsValid (upsert_stock_item-Rewrites upper settings k sku q threshold row s t e) v
Step-IsValid {s = s} {t = t} (adjusts k a threshold row e) v =
    Rewrites-IsValid (adjust_stock-Rewrites k a threshold row s t e).1 v

empty-IsValid : IsValid empty
unfolding available_of reserved_of held_of ledger_sum last_balance lookup
empty-IsValid = record {
  available_fits = λ j. omega arith;
  reserved_fits = λ j. omega arith;
  reserved_held = λ j. refl;
  keyed = λ o r e. absurd (cc);
  distinct = tt;
  audited = record { sums = λ j. refl; balances = λ j. refl };
}

-- Every database that a sequence of committed transactions reaches from the empty tables (messages
-- that the consumer handles, sweeps, restocks and stock-take corrections, in any order) is valid:
-- the columns are in range, what a product has reserved is what the HELD reservations hold of it,
-- each reservation stands once and under its order, and the ledger's deltas and newest balance
-- explain what is available.
pub Reach-IsValid :
    {upper : String → String} {settings : Settings} {s : Inventory}
    → Reach upper settings s
    → IsValid s
Reach-IsValid here = empty-IsValid
Reach-IsValid (next before step) = Step-IsValid step (Reach-IsValid before)
