-- ===== src/Inventory/Settle/Expire/Query.antt =====
-- The query of `expire_stale_reservations`: it selects every stale hold, and each order once.
use inventory_management_sys.Prelude.{
  ℕ, zero, suc, ◌≡◌, ◌≢◌, ◌<◌, refl, sym, subst, ◌∙◌, ap, List, [], ◌∷◌, none, some, true, Bool,
  inl, inr, All, take, length, Dict, Distinct, lookup, ◌==◌, Uuid, Datetime, arith, Bool-cases, leb,
}
use inventory_management_sys.Inventory.Models.{Reservation, ReservationStatus}
use inventory_management_sys.Inventory.Settle.{is_stale, insert_by_expiry, stale_reservations}

-- A row of the table that the sweeper's query selects.
abbrev pub IsStaleIn : Datetime → (Uuid → Bool) → Dict Reservation → Reservation → Type 0
IsStaleIn now elsewhere d r = (lookup r.order_id d ≡ some r) × (is_stale now elsewhere r ≡ true)

-- No two of the rows belong to one order.
abbrev pub Apart : List Reservation → Type 0
Apart [] = Unit
Apart (r ∷ rs) = All (λ x. x.order_id ≢ r.order_id) rs × Apart rs

All-insert_by_expiry {ℓ} :
    (P : Reservation → Type ℓ) (r : Reservation) (rs : List Reservation)
    → P r
    → All P rs
    → All P (insert_by_expiry r rs)
unfolding insert_by_expiry
All-insert_by_expiry P r [] h hs = (h, hs)
All-insert_by_expiry P r (x ∷ xs) h hs = elim (Bool-cases (leb r.expires_at x.expires_at)) [
  | inl first ↦ rw first (h, hs)
  | inr later ↦ rw later (hs.0, All-insert_by_expiry P r xs h hs.1)
]

All-map {ℓ κ} :
    {P : Reservation → Type ℓ} {Q : Reservation → Type κ} (rs : List Reservation)
    → ((x : Reservation) → P x → Q x)
    → All P rs
    → All Q rs
All-map [] f h = tt
All-map (r ∷ rs) f h = (f r h.0, All-map rs f h.1)

pub All-zip {ℓ κ μ} :
    {P : Reservation → Type ℓ} {Q : Reservation → Type κ} {R : Reservation → Type μ}
    (rs : List Reservation)
    → ((x : Reservation) → P x → Q x → R x)
    → All P rs
    → All Q rs
    → All R rs
All-zip [] f h k = tt
All-zip (r ∷ rs) f h k = (f r h.0 k.0, All-zip rs f h.1 k.1)

pub All-take {ℓ} :
    (P : Reservation → Type ℓ) (n : ℕ) (rs : List Reservation) → All P rs → All P (take n rs)
All-take P zero rs h = tt
All-take P (suc n) [] h = tt
All-take P (suc n) (r ∷ rs) h = (h.0, All-take P n rs h.1)

pub Apart-take : (n : ℕ) (rs : List Reservation) → Apart rs → Apart (take n rs)
Apart-take zero rs h = tt
Apart-take (suc n) [] h = tt
Apart-take (suc n) (r ∷ rs) h =
    (All-take (λ x. x.order_id ≢ r.order_id) n rs h.0, Apart-take n rs h.1)

Apart-insert_by_expiry :
    (r : Reservation) (rs : List Reservation)
    → All (λ x. x.order_id ≢ r.order_id) rs
    → Apart rs
    → Apart (insert_by_expiry r rs)
unfolding insert_by_expiry
Apart-insert_by_expiry r [] h a = (tt, tt)
Apart-insert_by_expiry r (x ∷ xs) h a = elim (Bool-cases (leb r.expires_at x.expires_at)) [
  | inl first ↦ rw first (h, a)
  | inr later ↦ rw later (
    All-insert_by_expiry (λ y. y.order_id ≢ x.order_id) r xs (λ e. h.0 (sym e)) a.0,
    Apart-insert_by_expiry r xs h.1 a.1,
  )
]

-- A row under another key than the first is found in the rest.
key-ne :
    (k o : Uuid) (x : Reservation) (d : Dict Reservation)
    → lookup k d ≡ none
    → lookup o d ≡ some x
    → o ≢ k
key-ne k o x d fresh e = λ same. let e' = subst (λ i. lookup i d ≡ some x) same e in cc

lookup-cons_ne :
    (k o : Uuid) (r : Reservation) (d : Dict Reservation)
    → o ≢ k
    → lookup o ((k, r) ∷ d) ≡ lookup o d
unfolding lookup
lookup-cons_ne k o r d h = ground arith

lookup-cons_self :
    (k : Uuid) (r : Reservation) (d : Dict Reservation) → lookup k ((k, r) ∷ d) ≡ some r
unfolding lookup
lookup-cons_self k r d = ground arith

-- What the query selects from a table in which rows stand under their own orders.
pub stale_reservations_lem :
    (now : Datetime) (elsewhere : Uuid → Bool) (d : Dict Reservation)
    → Distinct d
    → ((o : Uuid) (x : Reservation) → lookup o d ≡ some x → x.order_id ≡ o)
    → All (IsStaleIn now elsewhere d) (stale_reservations now elsewhere d)
      × Apart (stale_reservations now elsewhere d)
unfolding stale_reservations
stale_reservations_lem now elsewhere [] h keyed = (tt, tt)
stale_reservations_lem now elsewhere ((k, r) ∷ d) (fresh, h) keyed =
    let (rest, apart) =
      stale_reservations_lem now elsewhere d h
        (λ o x e. keyed o x (lookup-cons_ne k o r d (key-ne k o x d fresh e) ∙ e)) in
    let rs = stale_reservations now elsewhere d in
    let own : r.order_id ≡ k = keyed k r (lookup-cons_self k r d) in
    let widen : (x : Reservation)
        → IsStaleIn now elsewhere d x
        → IsStaleIn now elsewhere ((k, r) ∷ d) x =
      λ x p. (lookup-cons_ne k x.order_id r d (key-ne k x.order_id x d fresh p.0) ∙ p.0, p.1) in
    let others : All (IsStaleIn now elsewhere ((k, r) ∷ d)) rs = All-map rs widen rest in
    elim (Bool-cases (is_stale now elsewhere r)) [
      | inr fine ↦ rw fine (others, apart)
      | inl stale ↦ rw stale (
        All-insert_by_expiry (IsStaleIn now elsewhere ((k, r) ∷ d)) r rs
            (subst (λ o. lookup o ((k, r) ∷ d) ≡ some r) (sym own) (lookup-cons_self k r d), stale)
            others,
        Apart-insert_by_expiry r rs
            (All-map rs (λ x p e. key-ne k x.order_id x d fresh p.0 (e ∙ own)) rest) apart,
      )
    ]

pub stale-held :
    (now : Datetime) (elsewhere : Uuid → Bool) (r : Reservation)
    → is_stale now elsewhere r ≡ true
    → (r.status ≡ ReservationStatus.held) × (r.expires_at < now)
unfolding is_stale
stale-held now elsewhere r e = ground arith

All-insert_by_expiry_inv {ℓ} :
    (P : Reservation → Type ℓ) (r : Reservation) (rs : List Reservation)
    → All P (insert_by_expiry r rs)
    → P r × All P rs
unfolding insert_by_expiry
All-insert_by_expiry_inv P r [] h = h
All-insert_by_expiry_inv P r (x ∷ xs) h = elim (Bool-cases (leb r.expires_at x.expires_at)) [
  | inl first ↦ rw first at h
  | inr later ↦
      let h' : P x × All P (insert_by_expiry r xs) = rw later at h in
      let (here, rest) = All-insert_by_expiry_inv P r xs h'.1 in (here, (h'.0, rest))
]

-- The query misses no stale row: what holds of all that it selects holds of each.
pub stale_reservations_complete {ℓ} :
    (P : Reservation → Type ℓ) (now : Datetime) (elsewhere : Uuid → Bool) (d : Dict Reservation)
    (o : Uuid) (x : Reservation)
    → All P (stale_reservations now elsewhere d)
    → lookup o d ≡ some x
    → is_stale now elsewhere x ≡ true
    → P x
unfolding stale_reservations lookup
stale_reservations_complete P now elsewhere [] o x h found stale = absurd (cc)
stale_reservations_complete P now elsewhere ((k, r) ∷ d) o x h found stale =
    let rest = stale_reservations now elsewhere d in
    elim (Bool-cases (is_stale now elsewhere r)) [
      | inl old ↦
          let parts = All-insert_by_expiry_inv P r rest (rw old at h) in
          elim (Bool-cases (o == k)) [
            | inl here ↦ let same : r ≡ x = ground arith in subst P same parts.0
            | inr there ↦
                stale_reservations_complete P now elsewhere d o x parts.1 (ground arith) stale
          ]
      | inr fine ↦ elim (Bool-cases (o == k)) [
        | inl here ↦
            let same : r ≡ x = ground arith in absurd (cc (ap (is_stale now elsewhere) same))
        | inr there ↦
            stale_reservations_complete P now elsewhere d o x (rw fine at h) (ground arith) stale
      ]
    ]

pub take_all {ℓ} : {A : Type ℓ} (n : ℕ) (xs : List A) → length (take n xs) < n → take n xs ≡ xs
take_all zero xs h = absurd (omega arith)
take_all (suc n) [] h = refl
take_all (suc n) (x ∷ xs) h = ap (λ r. x ∷ r) (take_all n xs (omega arith))
