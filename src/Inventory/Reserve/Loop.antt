-- ===== src/Inventory/Reserve/Loop.antt =====
-- The loop of `reserve` that moves the units, for every product at once.
use inventory_management_sys.Prelude.{
  ℕ, ◌+◌, ◌≡◌, ◌≤◌, refl, ◌∙◌, List, [], ◌∷◌, true, ◌+ℤ◌, ◌-ℤ◌, Dict, contains, All, Uuid, arith,
  inl, inr,
}
use inventory_management_sys.Common.Errors.{ok, Result-cases, int_max}
use inventory_management_sys.Inventory.Models.{StockItem, Inventory}
use inventory_management_sys.Inventory.Quantities.{
  available_of, reserved_of, qty_of, available_of-insert, reserved_of-insert, contains-insert_old,
  available_of_found, reserved_of_found,
}
use inventory_management_sys.Inventory.Invariant.{Audited, Audited-write}
use inventory_management_sys.Inventory.Settle.Effect.{one_of}
use inventory_management_sys.Inventory.Reserve.{reserve_item, reserve_items}
use inventory_management_sys.Inventory.Reserve.Stock.{Took, reserve_item-Took, reserve_item-ok}

-- n units of each product go from `available_qty` to `reserved_qty`; nothing else of note changes.
pub record Takes (n : Uuid → ℕ) (s t : Inventory) : Type 0 where
  pub available : (j : Uuid) → available_of j t.stock + n j ≡ available_of j s.stock
  pub reserved : (j : Uuid) → reserved_of j t.stock ≡ reserved_of j s.stock + n j
  pub same_rows : (j : Uuid) → contains j t.stock ≡ contains j s.stock
  pub same_reservations : t.reservations ≡ s.reservations
  pub audit : Audited s.stock s.ledger → Audited t.stock t.ledger
  pub range :
      ((j : Uuid) → reserved_of j s.stock ≤ int_max) → (j : Uuid) → reserved_of j t.stock ≤ int_max

Took-Takes :
    (o k : Uuid) (q : ℕ) (old new : StockItem) (s t : Inventory)
    → Took o k q old new s t
    → Takes (one_of k q) s t
unfolding one_of ◌+ℤ◌ ◌-ℤ◌
Took-Takes o k q old new s t w = record {
  available = λ j. rw w.stock_lem (
      ground
        (arith, w, available_of-insert j k new s.stock, available_of_found k s.stock old w.found));
  reserved = λ j. rw w.stock_lem (
      ground
        (arith, w, reserved_of-insert j k new s.stock, reserved_of_found k s.stock old w.found));
  same_rows = λ j. rw w.stock_lem (contains-insert_old j k new s.stock {old = old} w.found);
  same_reservations = w.reservations_lem;
  audit = λ a.
      rw (w.stock_lem, w.ledger_lem)
        (Audited-write k new _ s.stock s.ledger refl refl
          (rw (available_of_found k s.stock old w.found) (ground (arith, w))) a);
  range = λ h j. rw w.stock_lem (ground (arith, w, h j, reserved_of-insert j k new s.stock));
}

Takes-trans :
    (m n : Uuid → ℕ) (s t u : Inventory) → Takes m s t → Takes n t u → Takes (λ j. m j + n j) s u
Takes-trans m n s t u a b = record {
  available = λ j. omega (arith, a.available j, b.available j);
  reserved = λ j. omega (arith, a.reserved j, b.reserved j);
  same_rows = λ j. b.same_rows j ∙ a.same_rows j;
  same_reservations = b.same_reservations ∙ a.same_reservations;
  audit = λ h. b.audit (a.audit h);
  range = λ h. b.range (a.range h);
}

pub reserve_items-Takes :
    (o : Uuid) (items : List (Uuid × ℕ)) (s t : Inventory)
    → reserve_items o items s ≡ ok t
    → Takes (λ j. qty_of j items) s t
unfolding reserve_items qty_of one_of
reserve_items-Takes o [] s t e =
    let same : s ≡ t = ground arith in
    rw (← same) (record {
      available = λ j. omega arith;
      reserved = λ j. omega arith;
      same_rows = λ j. refl;
      same_reservations = refl;
      audit = λ a. a;
      range = λ h. h;
    })
reserve_items-Takes o ((k, q) ∷ items) s t e = elim (Result-cases (reserve_item o k q s)) [
  | inr (x, failed) ↦ absurd (ground arith)
  | inl (u, first) ↦
      let (old, new, w) = reserve_item-Took o k q s u first in
      Takes-trans (one_of k q) (λ j. qty_of j items) s u t (Took-Takes o k q old new s u w)
        (reserve_items-Takes o items u t (ground arith))
]

All-same :
    (s t : Dict StockItem) (items : List (Uuid × ℕ))
    → All (λ item. contains item.0 s ≡ true) items
    → ((j : Uuid) → contains j t ≡ contains j s)
    → All (λ item. contains item.0 t ≡ true) items
All-same s t [] h same = tt
All-same s t (item ∷ items) h same = (same item.0 ∙ h.0, All-same s t items h.1 same)

-- The loop goes through when every product is known and has enough, and its units fit a column.
pub reserve_items-ok :
    (o : Uuid) (items : List (Uuid × ℕ)) (s : Inventory)
    → All (λ item. contains item.0 s.stock ≡ true) items
    → ((j : Uuid) → qty_of j items ≤ available_of j s.stock)
    → ((j : Uuid) → available_of j s.stock + reserved_of j s.stock ≤ int_max)
    → (t : Inventory) × (reserve_items o items s ≡ ok t)
unfolding reserve_items qty_of one_of
reserve_items-ok o [] s known enough room = (s, refl)
reserve_items-ok o ((k, q) ∷ items) s (here, known) enough room =
    let (u, first) = reserve_item-ok o k q s here (ground (arith, enough k)) (room k) in
    let (old, new, w) = reserve_item-Took o k q s u first in
    let d = Took-Takes o k q old new s u w in
    let (t, rest) =
      reserve_items-ok o items u (All-same s.stock u.stock items known d.same_rows)
        (λ j. omega (arith, enough j, d.available j))
        (λ j. omega (arith, room j, d.available j, d.reserved j)) in
    (t, rw first rest)
