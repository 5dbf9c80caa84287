-- ===== src/Inventory/Reserve/Stock.antt =====
-- What `reserve` reads of the stock (who is short) and what its loop writes.
use inventory_management_sys.Prelude.{
  ℕ, ◌+◌, ◌-◌, ◌≡◌, ◌≤◌, ◌<◌, refl, inl, inr, List, [], ◌∷◌, some, true, pos, ◌-ℤ◌, Dict, lookup,
  insert, contains, All, Uuid, ◌==◌, arith, Bool-cases, Option-cases, ==_iff,
}
use inventory_management_sys.Common.Errors.{ok, Result-cases, int_max}
use inventory_management_sys.Common.Events.{LedgerReason}
use inventory_management_sys.Inventory.Models.{StockItem, Inventory}
use inventory_management_sys.Inventory.Quantities.{available_of, reserved_of, qty_of}
use inventory_management_sys.Inventory.Reserve.{insufficient_items, reserve_item, quantity_in}

-- Every item's product has a row with enough available.
abbrev pub Covers : Dict StockItem → List (Uuid × ℕ) → Type 0
Covers stock items =
    All (λ item. (contains item.0 stock ≡ true) × (item.1 ≤ available_of item.0 stock)) items

-- `insufficient` is empty exactly when the stock covers what is wanted.
pub insufficient_items-Covers :
    (stock : Dict StockItem) (wanted : List (Uuid × ℕ))
    → insufficient_items stock wanted ≡ []
    → Covers stock wanted
unfolding insufficient_items available_of
insufficient_items-Covers stock [] e = tt
insufficient_items-Covers stock ((k, q) ∷ wanted) e =
    ground (arith, insufficient_items-Covers stock wanted)

pub insufficient_of_Covers :
    (stock : Dict StockItem) (wanted : List (Uuid × ℕ))
    → Covers stock wanted
    → insufficient_items stock wanted ≡ []
unfolding insufficient_items available_of
insufficient_of_Covers stock [] h = refl
insufficient_of_Covers stock ((k, q) ∷ wanted) h =
    ground (arith, insufficient_of_Covers stock wanted h.1)

pub quantity_in-le :
    (j : Uuid) (stock : Dict StockItem) (wanted : Dict ℕ)
    → Covers stock wanted
    → quantity_in j wanted ≤ available_of j stock
unfolding quantity_in lookup
quantity_in-le j stock [] h = omega arith
quantity_in-le j stock ((k, q) ∷ wanted) h = elim (Bool-cases (j == k)) [
  | inl eq ↦ let same : j ≡ k = (==_iff j k).0 eq in ground arith
  | inr ne ↦ ground (arith, quantity_in-le j stock wanted h.1)
]

contains_of_available :
    (k : Uuid) (stock : Dict StockItem) → 0 < available_of k stock → contains k stock ≡ true
unfolding available_of
contains_of_available k stock h = ground arith

pub qty_of-Covers :
    (stock : Dict StockItem) (items : List (Uuid × ℕ))
    → All (λ item. 0 < item.1) items
    → ((j : Uuid) → qty_of j items ≤ available_of j stock)
    → Covers stock items
unfolding qty_of
qty_of-Covers stock [] h le = tt
qty_of-Covers stock ((k, q) ∷ items) (h, hs) le =
    let enough : q ≤ available_of k stock = ground (arith, le k) in
    (
      (contains_of_available k stock (omega arith), enough),
      qty_of-Covers stock items hs (λ j. omega (arith, le j)),
    )

-- One round, inverted.
pub record Took (o k : Uuid) (q : ℕ) (old new : StockItem) (s t : Inventory) : Type 0 where
  pub found : lookup k s.stock ≡ some old
  pub available : new.available_qty + q ≡ old.available_qty
  pub reserved : new.reserved_qty ≡ old.reserved_qty + q
  pub fits : new.reserved_qty ≤ int_max
  pub stock_lem : t.stock ≡ insert k new s.stock
  pub reservations_lem : t.reservations ≡ s.reservations
  pub ledger_lem :
      t.ledger
      ≡ record {
        product_id = k;
        delta = pos 0 -ℤ pos q;
        reason = LedgerReason.reserve;
        ref_order_id = some o;
        balance_after = new.available_qty;
      }
        ∷ s.ledger

pub reserve_item-Took :
    (o k : Uuid) (q : ℕ) (s t : Inventory)
    → reserve_item o k q s ≡ ok t
    → (old new : StockItem) × Took o k q old new s t
unfolding reserve_item
reserve_item-Took o k q s t e = elim (Option-cases (lookup k s.stock)) [
  | inl missing ↦ absurd (ground arith)
  | inr (old, found) ↦ (
    old,
    record old { available_qty = old.available_qty - q; reserved_qty = old.reserved_qty + q },
    ground arith,
  )
]

pub reserve_item-ok :
    (o k : Uuid) (q : ℕ) (s : Inventory)
    → contains k s.stock ≡ true
    → q ≤ available_of k s.stock
    → available_of k s.stock + reserved_of k s.stock ≤ int_max
    → (t : Inventory) × (reserve_item o k q s ≡ ok t)
unfolding reserve_item available_of reserved_of
reserve_item-ok o k q s known enough room = elim (Result-cases (reserve_item o k q s)) [
  | inl done ↦ done
  | inr (x, failed) ↦ absurd (ground arith)
]
