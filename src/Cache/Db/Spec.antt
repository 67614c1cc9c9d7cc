-- ===== src/Cache/Db/Spec.antt =====
-- What server/Db.h promises of the store: a cache that knows the keys from the most to the least
-- recently used one, and a value for each.
use pp_d_scache.Base.{
  ℕ, ◌≤◌, ◌<◌, ◌≡◌, arith, le→leb, Bool, true, false, List, [], ◌∷◌, Option, none, some, length,
  leb, if◌then◌else◌,
}
use pp_d_scache.Base.Table
use pp_d_scache.Base.Table.{Table}
use pp_d_scache.Cache.Nodes.{remove}

pub record View (K V : Type 0) : Type 0 where
  pub order : List K
  pub store : Table K V

module _ {ℓ} {A : Type ℓ} where
  -- The least recently used key.
  unfoldable pub last : List A → Option A
  last [] = none
  last (x ∷ []) = some x
  last (x ∷ y ∷ l) = last (y ∷ l)

  unfoldable pub init : List A → List A
  init [] = []
  init (x ∷ []) = []
  init (x ∷ y ∷ l) = x ∷ init (y ∷ l)

module _ {K V : Type 0} (dec : Discrete K) where
  -- A use of a key that is present.
  unfoldable pub use_key : K → V → View K V → View K V
  use_key k v w = record { order = k ∷ remove dec k w.order; store = Table.insert dec k v w.store }

  unfoldable pub get : K → View K V → Option V × View K V
  unfolding use_key
  get k w = elim (w.store k) [ none ↦ (none, w) | some v ↦ (some v, use_key k v w) ]

  unfoldable pub del : K → View K V → Bool × View K V
  del k w = elim (w.store k) [
    | none ↦ (false, w)
    | some v ↦ (true, record { order = remove dec k w.order; store = Table.erase dec k w.store })
  ]

  -- A full cache loses its least recently used key.
  unfoldable pub evict : ℕ → View K V → View K V
  evict limit w =
      if leb limit (length w.order)
      then elim (last w.order) [
        | none ↦ w
        | some k ↦ record { order = init w.order; store = Table.erase dec k w.store }
      ]
      else w

  unfoldable pub set : ℕ → K → V → View K V → View K V
  unfolding use_key evict
  set limit k v w = elim (w.store k) [
    | some old ↦ use_key k v w
    | none ↦
        let w' = evict limit w in
        record { order = k ∷ w'.order; store = Table.insert dec k v w'.store }
  ]

  module _ (k : K) (w : View K V) where
    pub get-absent : w.store k ≡ none → get k w ≡ (none, w)
    unfolding get
    get-absent h = rw (h, get)

    pub get-present : (v : V) → w.store k ≡ some v → get k w ≡ (some v, use_key k v w)
    unfolding get
    get-present v h = rw (h, get)

    pub del-absent : w.store k ≡ none → del k w ≡ (false, w)
    unfolding del
    del-absent h = rw (h, del)

    pub del-present :
        (v : V)
        → w.store k ≡ some v
        → del k w
          ≡ (true, record { order = remove dec k w.order; store = Table.erase dec k w.store })
    unfolding del
    del-present v h = rw (h, del)

    pub set-present :
        (limit : ℕ) (v old : V) → w.store k ≡ some old → set limit k v w ≡ use_key k v w
    unfolding set
    set-present limit v old h = rw (h, set)

    pub set-absent :
        (limit : ℕ) (v : V)
        → w.store k ≡ none
        → set limit k v w ≡ record {
          order = k ∷ (evict limit w).order;
          store = Table.insert dec k v (evict limit w).store;
        }
    unfolding set
    set-absent limit v h = rw (h, set)

  pub evict-fits : (limit : ℕ) (w : View K V) → length w.order < limit → evict limit w ≡ w
  unfolding evict
  evict-fits limit w h = ground arith

  pub evict-full :
      (limit : ℕ) (w : View K V) (k : K)
      → limit ≤ length w.order
      → last w.order ≡ some k
      → evict limit w ≡ record { order = init w.order; store = Table.erase dec k w.store }
  unfolding evict
  evict-full limit w k h e = rw (le→leb _ _ h, e, evict)
