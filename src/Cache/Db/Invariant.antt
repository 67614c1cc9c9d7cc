-- ===== src/Cache/Db/Invariant.antt =====
-- The invariant of `Db`: its list, its map and its multimap point to one another.
use pp_d_scache.Base.{ℕ, suc, ◌<◌, ◌≡◌, List, [], ◌∷◌, Option, none, some, arith, ℕ_discrete}
use pp_d_scache.Base.Int.{ℤ}
use pp_d_scache.Base.Table
use pp_d_scache.Base.Table.{Table}
use pp_d_scache.Cache.Nodes.{
  Node, deref, erase_node, Below, Owned, Others, Below-erase_node, deref_above, deref-erase_node_ne,
  Others-erase_node,
}
use pp_d_scache.Cache.Db.{Db, Entry, add_entry}

abbrev pub slot_key : {K : Type 0} → Option (ℤ × K) → Option K
slot_key none = none
slot_key (some (s, k)) = some k

module _ {K V : Type 0} where
  abbrev pub lru_at : Table K (Entry V) → K → Option ℕ
  lru_at m k = elim (m k) [ none ↦ none | some e ↦ some e.lru_itor ]

  abbrev pub slot_at : Table K (Entry V) → K → Option ℕ
  slot_at m k = elim (m k) [ none ↦ none | some e ↦ some e.slot_itor ]

  -- Every entry's iterators point to nodes with its key, and every node is some entry's.
  pub record IsLinked (d : Db K V) : Type 0 where
    pub falling : Below d.fresh d.lru_list
    pub owned : Owned (lru_at d.map) d.lru_list
    pub lru_good : (k : K) (e : Entry V) → d.map k ≡ some e → deref e.lru_itor d.lru_list ≡ some k
    pub slot_good :
        (k : K) (e : Entry V) → d.map k ≡ some e → slot_key (d.slot_to_key e.slot_itor) ≡ some k
    pub slot_owned :
        (i : ℕ) (k : K) → slot_key (d.slot_to_key i) ≡ some k → slot_at d.map k ≡ some i
    pub slot_falling : (i : ℕ) (k : K) → slot_key (d.slot_to_key i) ≡ some k → i < d.fresh

module _ {K V : Type 0} (dec : Discrete K) where
  -- The store after `k`, whose entry is `e`, was used and given the value.
  abbrev pub moved : K → Entry V → V → Db K V → Db K V
  moved k e value d = record d {
    lru_list = record { node = d.fresh; key = k } ∷ erase_node e.lru_itor d.lru_list;
    map = Table.insert dec k (record e { lru_itor = d.fresh; value = value }) d.map;
    fresh = suc d.fresh;
  }

  -- The store without `k`, whose entry is `e`.
  abbrev pub removed : K → Entry V → Db K V → Db K V
  removed k e d = record d {
    map = Table.erase dec k d.map;
    lru_list = erase_node e.lru_itor d.lru_list;
    slot_to_key = Table.erase ℕ_discrete e.slot_itor d.slot_to_key;
  }

  -- A list whose nodes carry other keys than `k` is owned by the map with `k` changed.
  Owned-insert :
      (m : Table K (Entry V)) (k : K) (i : ℕ) (here : lru_at m k ≡ some i) (e : Entry V)
      (l : List (Node K))
      → Others dec (lru_at m) k i here l
      → Owned (lru_at (Table.insert dec k e m)) l
  Owned-insert m k i here e [] o = tt
  Owned-insert m k i here e (x ∷ l) o = (ground (arith, o.0), Owned-insert m k i here e l o.1)

  Owned-erase :
      (m : Table K (Entry V)) (k : K) (i : ℕ) (here : lru_at m k ≡ some i) (l : List (Node K))
      → Others dec (lru_at m) k i here l
      → Owned (lru_at (Table.erase dec k m)) l
  Owned-erase m k i here [] o = tt
  Owned-erase m k i here (x ∷ l) o = (ground (arith, o.0), Owned-erase m k i here l o.1)

  Owned-missing :
      (m : Table K (Entry V)) (k : K)
      → m k ≡ none
      → (e : Entry V) (l : List (Node K)) → Owned (lru_at m) l
      → Owned (lru_at (Table.insert dec k e m)) l
  Owned-missing m k h e [] o = tt
  Owned-missing m k h e (x ∷ l) o = (ground (arith, o.0), Owned-missing m k h e l o.1)

  module _ (k : K) (e : Entry V) (d : Db K V) (v : IsLinked d) (found : d.map k ≡ some e) where
    pub here : lru_at d.map k ≡ some e.lru_itor
    here = ground arith

    pub moved-IsLinked : (value : V) → IsLinked (moved k e value d)
    unfolding deref
    moved-IsLinked value = record {
      falling = (omega arith, Below-erase_node e.lru_itor d.fresh d.lru_list v.falling);
      owned = (
        ground arith,
        Owned-insert d.map k e.lru_itor here _ _ (
            Others-erase_node dec (lru_at d.map) k e.lru_itor here d.fresh d.lru_list v.falling
              v.owned),
      );
      lru_good = λ j f h. ground (
        arith,
        v.lru_good j f,
        v.lru_good k e found,
        deref_above d.fresh d.fresh d.lru_list v.falling,
        deref-erase_node_ne e.lru_itor f.lru_itor d.lru_list,
      );
      slot_good = λ j f h. ground (arith, v.slot_good j f, v.slot_good k e);
      slot_owned = λ i j h. ground (arith, v.slot_owned i j h);
      slot_falling = λ i j h. omega (arith, v.slot_falling i j h);
    }

    pub removed-IsLinked : IsLinked (removed k e d)
    removed-IsLinked = record {
      falling = Below-erase_node e.lru_itor d.fresh d.lru_list v.falling;
      owned = Owned-erase d.map k e.lru_itor here _ (
          Others-erase_node dec (lru_at d.map) k e.lru_itor here d.fresh d.lru_list v.falling
            v.owned);
      lru_good = λ j f h. ground (
        arith,
        v.lru_good j f,
        v.lru_good k e found,
        deref-erase_node_ne e.lru_itor f.lru_itor d.lru_list,
      );
      slot_good = λ j f h. ground (arith, v.slot_good j f, v.slot_good k e found);
      slot_owned = λ i j h. ground (arith, v.slot_owned i j);
      slot_falling = λ i j h. ground (arith, v.slot_falling i j);
    }

  -- Inserting a key that is not there, with that key pushed to the front.
  pub added-IsLinked :
      (k : K) (value : V) (slot : ℤ) (d : Db K V)
      → IsLinked d
      → d.map k ≡ none
      → IsLinked (add_entry dec k k value slot d)
  unfolding add_entry deref
  added-IsLinked k value slot d v missing = record {
    falling = (omega arith, v.falling);
    owned = (ground arith, Owned-missing d.map k missing _ d.lru_list v.owned);
    lru_good =
        λ j f h. ground (arith, v.lru_good j f, deref_above d.fresh d.fresh d.lru_list v.falling);
    slot_good = λ j f h. ground (arith, v.slot_good j f, v.slot_falling f.slot_itor j);
    slot_owned = λ i j h. ground (arith, v.slot_owned i j);
    slot_falling = λ i j h. ground (arith, v.slot_falling i j);
  }
