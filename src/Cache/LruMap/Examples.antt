-- ===== src/Cache/LruMap/Examples.antt =====
-- The theorems on `lruMap` at a concrete map.
use pp_d_scache.Base.{ℕ, ℕ_discrete, ◌≡◌, ◌≢◌, refl, [], ◌∷◌, none, some, arith, ok, err, undefined}
use pp_d_scache.Base.Int.{pos}
use pp_d_scache.Base.Table
use pp_d_scache.Cache.Nodes.{deref, keys}
use pp_d_scache.Cache.LruMap.{LruMap, Entry, set}
use pp_d_scache.Cache.LruMap.Refine.{IsLinked, set_wrong}

abbrev one_key : LruMap ℕ ℕ
one_key = record {
  max_size = pos 4;
  lru_list = record { node = 0; key = 5 } ∷ [];
  map = Table.insert ℕ_discrete 5 (record { lru_itor = 0; value = 50 }) Table.empty;
  fresh = 1;
}

one_key-IsLinked : IsLinked one_key
unfolding deref ℕ_discrete
one_key-IsLinked = record {
  falling = (omega arith, tt);
  owned = (refl, tt);
  lru_good = λ k e h. elim (ℕ_discrete k 5) [ yes p ↦ ground arith | no n ↦ absurd (ground arith) ];
}

set_wrong_example :
    ((e : Entry ℕ)
      → one_key.map 5 ≡ some e
      → (m' : LruMap ℕ ℕ) × (set ℕ_discrete 5 51 one_key ≡ ok m')
        × (keys m'.lru_list ≡ 5 ∷ 5 ∷ [])
        × (deref e.lru_itor m'.lru_list ≡ some 5)
        × (deref 1 m'.lru_list ≡ some 5)
        × (e.lru_itor ≢ 1))
    × (one_key.map 5 ≡ none → set ℕ_discrete 5 51 one_key ≡ err undefined)
set_wrong_example = set_wrong ℕ_discrete 5 51 one_key one_key-IsLinked (omega arith)
