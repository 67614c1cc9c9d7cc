-- ===== src/Cache/LruMap.antt =====
-- server/lruMap.h and server/lruMap.cc: `lruMap`, over keys `K` with a decidable equality.
pub mod Refine
mod Examples
use pp_d_scache.Base.{
  ℕ, suc, Bool, true, false, Option, none, some, List, ◌∷◌, length, leb, if◌then◌else◌, Result, ok,
  err, ◌>>=◌, or_fault, undefined,
}
use pp_d_scache.Base.Int.{ℤ, to_size}
use pp_d_scache.Base.Table
use pp_d_scache.Base.Table.{Table}
use pp_d_scache.Cache.Nodes.{Node, deref, erase_node, back, pop_back}

-- `mapValue`: the iterator and the value.
pub record Entry (V : Type 0) : Type 0 where
  pub lru_itor : ℕ
  pub value : V

-- The number `fresh` is the identity of the list's next node.
pub record LruMap (K V : Type 0) : Type 0 where
  pub max_size : ℤ
  pub lru_list : List (Node K)
  pub map : Table K (Entry V)
  pub fresh : ℕ

module _ {K V : Type 0} where
  -- `lruList_.size() >= maxSize_`
  abbrev pub is_over_size : LruMap K V → Bool
  is_over_size m = leb (to_size m.max_size) (length m.lru_list)

  unfoldable pub contain : K → LruMap K V → Bool
  contain key m = elim (m.map key) [ none ↦ false | some e ↦ true ]

module _ {K V : Type 0} (dec : Discrete K) where
  unfoldable pub get : K → LruMap K V → Result (Option V × LruMap K V)
  get key m = elim (m.map key) [
    | none ↦ ok (none, m)
    | some e ↦ do
      _ ← or_fault (deref e.lru_itor m.lru_list) undefined
      ok (
        some e.value,
        record m {
          lru_list = record { node = m.fresh; key = key } ∷ erase_node e.lru_itor m.lru_list;
          map = Table.insert dec key (record e { lru_itor = m.fresh }) m.map;
          fresh = suc m.fresh;
        },
      )
  ]

  unfoldable pub del : K → LruMap K V → Result (Bool × LruMap K V)
  del key m = elim (m.map key) [
    | none ↦ ok (false, m)
    | some e ↦ do
      _ ← or_fault (deref e.lru_itor m.lru_list) undefined
      ok (
        true,
        record m { map = Table.erase dec key m.map; lru_list = erase_node e.lru_itor m.lru_list },
      )
  ]

  -- The eviction in `Set`.
  unfoldable pub make_room : LruMap K V → Result (LruMap K V)
  make_room m =
      if is_over_size m
      then (do
        x ← or_fault (back m.lru_list) undefined
        ok (record m { map = Table.erase dec x.key m.map; lru_list = pop_back m.lru_list }))
      else ok m

  -- `Set` tests `mapItor == map_.end()` and then writes through `mapItor`, which is undefined; the
  -- other branch, for a key that the map holds, reads the key through `mapItor`, which is undefined if
  -- the eviction has erased that entry, and adds an entry.
  unfoldable pub set : K → V → LruMap K V → Result (LruMap K V)
  set key value m = elim (m.map key) [
    | none ↦ err undefined
    | some e ↦ do
      r ← make_room m
      _ ← or_fault (r.map key) undefined
      ok (record r {
        lru_list = record { node = r.fresh; key = key } ∷ r.lru_list;
        map = Table.insert dec key (record { lru_itor = r.fresh; value = value }) r.map;
        fresh = suc r.fresh;
      })
  ]
