-- ===== src/Cache/LruMap/Refine.antt =====
-- `Get` and `Del` against the specification of the store, and what `Set` does instead.
use pp_d_scache.Base.{
  ℕ, suc, ◌<◌, ◌≡◌, ◌≢◌, refl, fun_ext, inl, inr, List, [], ◌∷◌, Option, none, some, arith, length,
  Option-cases, ok, err, undefined,
}
use pp_d_scache.Base.Int.{to_size}
use pp_d_scache.Base.Table
use pp_d_scache.Base.Table.{Table}
use pp_d_scache.Cache.Nodes.{
  Node, deref, erase_node, keys, remove, Below, Owned, Others, Below-erase_node, deref_above,
  deref-erase_node_ne, keys-erase_node, Others-erase_node,
}
use pp_d_scache.Cache.LruMap.{LruMap, Entry, get, del, set, make_room}
use pp_d_scache.Cache.Db.Spec.{View}
use pp_d_scache.Cache.Db.Spec

module _ {K V : Type 0} where
  abbrev pub lru_at : Table K (Entry V) → K → Option ℕ
  lru_at m k = elim (m k) [ none ↦ none | some e ↦ some e.lru_itor ]

  abbrev pub value_at : Table K (Entry V) → K → Option V
  value_at m k = elim (m k) [ none ↦ none | some e ↦ some e.value ]

  abbrev pub view : LruMap K V → View K V
  view m = record { order = keys m.lru_list; store = value_at m.map }

  -- Every entry's iterator points to a node with its key, and every node is some entry's.
  pub record IsLinked (m : LruMap K V) : Type 0 where
    pub falling : Below m.fresh m.lru_list
    pub owned : Owned (lru_at m.map) m.lru_list
    pub lru_good : (k : K) (e : Entry V) → m.map k ≡ some e → deref e.lru_itor m.lru_list ≡ some k

  pub record Becomes (m : LruMap K V) (w : View K V) : Type 0 where
    pub linked : IsLinked m
    pub viewed : view m ≡ w

module _ {K V : Type 0} (dec : Discrete K) where
  Owned-insert :
      (m : Table K (Entry V)) (k : K) (i : ℕ) (here : lru_at m k ≡ some i) (e : Entry V)
      (l : List (Node K))
      → Others dec (lru_at m) k i here l
      → Owned (lru_at (Table.insert dec k e m)) l × Owned (lru_at (Table.erase dec k m)) l
  Owned-insert m k i here e [] o = (tt, tt)
  Owned-insert m k i here e (x ∷ l) o =
      let rest = Owned-insert m k i here e l o.1 in
      ((ground (arith, o.0), rest.0), (ground (arith, o.0), rest.1))

  module _ (k : K) (e : Entry V) (m : LruMap K V) (v : IsLinked m) (found : m.map k ≡ some e) where
    here : lru_at m.map k ≡ some e.lru_itor
    here = ground arith

    others : Others dec (lru_at m.map) k e.lru_itor here (erase_node e.lru_itor m.lru_list)
    others =
        Others-erase_node dec (lru_at m.map) k e.lru_itor here m.fresh m.lru_list v.falling v.owned

    removed-order : keys (erase_node e.lru_itor m.lru_list) ≡ remove dec k (keys m.lru_list)
    removed-order =
        keys-erase_node dec (lru_at m.map) k e.lru_itor here m.lru_list v.owned
          (v.lru_good k e found)

    moved-Becomes :
        Becomes
          (record m {
            lru_list = record { node = m.fresh; key = k } ∷ erase_node e.lru_itor m.lru_list;
            map = Table.insert dec k (record e { lru_itor = m.fresh }) m.map;
            fresh = suc m.fresh;
          })
          (Spec.use_key dec k e.value (view m))
    unfolding Spec.use_key deref
    moved-Becomes = record {
      linked = record {
        falling = (omega arith, Below-erase_node e.lru_itor m.fresh m.lru_list v.falling);
        owned = (ground arith, (Owned-insert m.map k e.lru_itor here _ _ others).0);
        lru_good = λ j f h. ground (
          arith,
          v.lru_good j f,
          v.lru_good k e found,
          deref_above m.fresh m.fresh m.lru_list v.falling,
          deref-erase_node_ne e.lru_itor f.lru_itor m.lru_list,
        );
      };
      viewed = λ i. record {
        order = k ∷ removed-order i;
        store =
            fun_ext {f = value_at (Table.insert dec k (record e { lru_itor = m.fresh }) m.map)}
              {g = Table.insert dec k e.value (value_at m.map)} (λ j. ground arith) i;
      };
    }

    removed-Becomes :
        Becomes
          (record m { map = Table.erase dec k m.map; lru_list = erase_node e.lru_itor m.lru_list })
          (record {
            order = remove dec k (keys m.lru_list);
            store = Table.erase dec k (value_at m.map);
          })
    removed-Becomes = record {
      linked = record {
        falling = Below-erase_node e.lru_itor m.fresh m.lru_list v.falling;
        owned = (Owned-insert m.map k e.lru_itor here e _ others).1;
        lru_good = λ j f h. ground (
          arith,
          v.lru_good j f,
          v.lru_good k e found,
          deref-erase_node_ne e.lru_itor f.lru_itor m.lru_list,
        );
      };
      viewed = λ i. record {
        order = removed-order i;
        store =
            fun_ext {f = value_at (Table.erase dec k m.map)}
              {g = Table.erase dec k (value_at m.map)} (λ j. ground arith) i;
      };
    }

  -- On a linked map `Get` returns what the specification reads, and makes the key the most recently used one.
  pub get-Spec :
      (k : K) (m : LruMap K V)
      → IsLinked m
      → (m' : LruMap K V) × (get dec k m ≡ ok ((Spec.get dec k (view m)).0, m'))
        × Becomes m' (Spec.get dec k (view m)).1
  unfolding get
  get-Spec k m v = elim (Option-cases (m.map k)) [
    | inl missing ↦
        rw (Spec.get-absent dec k (view m) (ground arith))
          (m, rw (missing, get), record { linked = v; viewed = refl })
    | inr (e, found) ↦ rw (Spec.get-present dec k (view m) e.value (ground arith)) (
      record m {
        lru_list = record { node = m.fresh; key = k } ∷ erase_node e.lru_itor m.lru_list;
        map = Table.insert dec k (record e { lru_itor = m.fresh }) m.map;
        fresh = suc m.fresh;
      },
      ground (arith, v.lru_good k e found),
      moved-Becomes k e m v found,
    )
  ]

  -- On a linked map `Del` does what the specification's does: it reports whether the key was there, and forgets it.
  pub del-Spec :
      (k : K) (m : LruMap K V)
      → IsLinked m
      → (m' : LruMap K V) × (del dec k m ≡ ok ((Spec.del dec k (view m)).0, m'))
        × Becomes m' (Spec.del dec k (view m)).1
  unfolding del
  del-Spec k m v = elim (Option-cases (m.map k)) [
    | inl missing ↦
        rw (Spec.del-absent dec k (view m) (ground arith))
          (m, rw (missing, del), record { linked = v; viewed = refl })
    | inr (e, found) ↦ rw (Spec.del-present dec k (view m) e.value (ground arith)) (
      record m { map = Table.erase dec k m.map; lru_list = erase_node e.lru_itor m.lru_list },
      ground (arith, v.lru_good k e found),
      removed-Becomes k e m v found,
    )
  ]

  -- On a linked map with room left, `Set` of a key that is there leaves the key in the list twice, at
  -- its old node and at a new one, and `Set` of a key that is not there is undefined.
  pub set_wrong :
      (k : K) (v : V) (m : LruMap K V)
      → IsLinked m
      → length m.lru_list < to_size m.max_size
      → ((e : Entry V)
          → m.map k ≡ some e
          → (m' : LruMap K V) × (set dec k v m ≡ ok m')
            × (keys m'.lru_list ≡ k ∷ keys m.lru_list)
            × (deref e.lru_itor m'.lru_list ≡ some k)
            × (deref m.fresh m'.lru_list ≡ some k)
            × (e.lru_itor ≢ m.fresh))
        × (m.map k ≡ none → set dec k v m ≡ err undefined)
  unfolding set make_room deref
  set_wrong k v m l room = (
    λ e found.
        let other : e.lru_itor ≢ m.fresh = λ p.
          ground
            (arith, l.lru_good k e found, deref_above e.lru_itor m.fresh m.lru_list l.falling) in
        (
          record m {
            lru_list = record { node = m.fresh; key = k } ∷ m.lru_list;
            map = Table.insert dec k (record { lru_itor = m.fresh; value = v }) m.map;
            fresh = suc m.fresh;
          },
          ground arith,
          refl,
          ground (arith, l.lru_good k e found),
          ground arith,
          other,
        ),
    λ missing. rw (missing, set),
  )
