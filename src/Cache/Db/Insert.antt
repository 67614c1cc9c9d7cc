-- ===== src/Cache/Db/Insert.antt =====
-- `setKV`: the eviction and the insertion, against `Spec.set`.
use pp_d_scache.Base.{
  ℕ, ◌∙◌, ◌≤◌, ◌<◌, ◌≡◌, Result-cases, refl, sym, fun_ext, inl, inr, List, [], ◌∷◌, Option, none,
  some, arith, length, leb→le, Bool-cases, Option-cases, Result, ok, err, undefined, ap, Fault,
}
use pp_d_scache.Base.Int.{ℤ, to_size}
use pp_d_scache.Base.Table
use pp_d_scache.Base.Table.{Table}
use pp_d_scache.Cache.Nodes.{Node, erase_node, back, pop_back, keys, back-erase_node, Owned}
use pp_d_scache.Cache.Db.{Db, Entry, make_room, add_entry, set_kv, is_over_size}
use pp_d_scache.Cache.Db.Invariant.{IsLinked, lru_at, moved, removed, added-IsLinked}
use pp_d_scache.Cache.Db.Refine.{
  view, value_at, Becomes, refresh-moved, moved-Becomes, removed-Becomes, same-Becomes,
}
use pp_d_scache.Cache.Db.Spec.{View, last, init}
use pp_d_scache.Cache.Db.Spec

module _ {K : Type 0} where
  length-keys : (l : List (Node K)) → length (keys l) ≡ length l
  length-keys [] = refl
  length-keys (x ∷ l) = omega (arith, length-keys l)

  last-keys : (l : List (Node K)) (x : Node K) → back l ≡ some x → last (keys l) ≡ some x.key
  unfolding last back
  last-keys [] x e = cc
  last-keys (y ∷ []) x e = cc
  last-keys (y ∷ z ∷ l) x e = last-keys (z ∷ l) x e

  init-keys : (l : List (Node K)) → init (keys l) ≡ keys (pop_back l)
  unfolding init pop_back
  init-keys [] = refl
  init-keys (y ∷ []) = refl
  init-keys (y ∷ z ∷ l) = rw (init-keys (z ∷ l))

  Owned-back :
      (at : K → Option ℕ) (l : List (Node K)) (x : Node K)
      → Owned at l
      → back l ≡ some x
      → at x.key ≡ some x.node
  unfolding back
  Owned-back at [] x o e = cc
  Owned-back at (y ∷ []) x o e = ground (arith, o.0)
  Owned-back at (y ∷ z ∷ l) x o e = Owned-back at (z ∷ l) x o.1 e

  back-some : (l : List (Node K)) → 0 < length l → (x : Node K) × (back l ≡ some x)
  unfolding back
  back-some [] h = absurd (omega arith)
  back-some (x ∷ []) h = (x, refl)
  back-some (x ∷ y ∷ l) h = back-some (y ∷ l) (omega arith)

module _ {K V : Type 0} where
  entry_of :
      (m : Table K (Entry V)) (k : K) (i : ℕ)
      → lru_at m k ≡ some i
      → (e : Entry V) × (m k ≡ some e) × (e.lru_itor ≡ i)
  entry_of m k i h = elim (Option-cases (m k)) [
    | inl missing ↦ absurd (ground arith)
    | inr (e, found) ↦ (e, found, ground arith)
  ]

module _ {K V : Type 0} (dec : Discrete K) where
  -- On a full linked store the last node is some entry's, and that entry is erased everywhere.
  make_room-removed :
      (d : Db K V) (x : Node K) (e : Entry V)
      → IsLinked d
      → to_size d.max_size ≤ length d.lru_list
      → back d.lru_list ≡ some x
      → d.map x.key ≡ some e
      → e.lru_itor ≡ x.node
      → make_room dec d ≡ ok (removed dec x.key e d)
  unfolding make_room
  make_room-removed d x e v full b found same =
      ground (arith, v.slot_good x.key e found, back-erase_node d.fresh d.lru_list x v.falling b)

  -- The store that a full linked store becomes is the one that the specification says.
  evicted-Becomes :
      (d : Db K V) (x : Node K) (e : Entry V)
      → IsLinked d
      → to_size d.max_size ≤ length d.lru_list
      → back d.lru_list ≡ some x
      → d.map x.key ≡ some e
      → e.lru_itor ≡ x.node
      → Becomes d (removed dec x.key e d) (Spec.evict dec (to_size d.max_size) (view d))
  evicted-Becomes d x e v full b found same =
      let q : erase_node e.lru_itor d.lru_list ≡ pop_back d.lru_list =
        rw same (sym (back-erase_node d.fresh d.lru_list x v.falling b).1) in
      let r = removed-Becomes dec x.key e d v found in
      rw
        (
          Spec.evict-full dec (to_size d.max_size) (view d) x.key (rw (length-keys d.lru_list) full)
              (last-keys d.lru_list x b),
          init-keys d.lru_list,
        )
        (record {
          linked = r.linked;
          viewed = λ i. record { order = keys (q i); store = (r.viewed i).store };
          settings_kept = refl;
        })

  -- The room that `set_kv` makes is the specification's, and brings no key back.
  make_room-Spec :
      (d : Db K V)
      → IsLinked d
      → 0 < to_size d.max_size
      → (d' : Db K V) × (make_room dec d ≡ ok d')
        × Becomes d d' (Spec.evict dec (to_size d.max_size) (view d))
        × ((k : K) → d.map k ≡ none → d'.map k ≡ none)
  unfolding make_room
  make_room-Spec d v pos = elim (Bool-cases (is_over_size d)) [
    | inl full ↦
        let h = leb→le (to_size d.max_size) (length d.lru_list) full in
        let (x, b) = back-some d.lru_list (omega arith) in
        let (e, found, same) =
          entry_of d.map x.key x.node (Owned-back (lru_at d.map) d.lru_list x v.owned b) in
        (
          removed dec x.key e d,
          make_room-removed d x e v h b found same,
          evicted-Becomes d x e v h b found same,
          λ k missing. ground arith,
        )
    | inr fits ↦
        rw
          (Spec.evict-fits dec (to_size d.max_size) (view d)
            (rw (length-keys d.lru_list) (ground arith)))
          (d, rw (fits, make_room), same-Becomes dec d v, λ k missing. missing)
  ]

  -- What `add_entry` does to the view, where the key that it pushes is the key that it stores.
  added-Becomes :
      (k : K) (value : V) (slot : ℤ) (d : Db K V)
      → IsLinked d
      → d.map k ≡ none
      → Becomes d (add_entry dec k k value slot d) (record {
        order = k ∷ keys d.lru_list;
        store = Table.insert dec k value (value_at d.map);
      })
  unfolding add_entry
  added-Becomes k value slot d v missing = record {
    linked = added-IsLinked dec k value slot d v missing;
    viewed = λ i. record {
      order = k ∷ keys d.lru_list;
      store =
          fun_ext {f = value_at (add_entry dec k k value slot d).map}
            {g = Table.insert dec k value (value_at d.map)} (λ j. ground arith) i;
    };
    settings_kept = refl;
  }

  -- On a linked store a write does what the specification's does, if the limit is positive and
  -- `mapItor->first` gives the key for a key that is not there.
  set_kv-Spec :
      (k : K) (value : V) (slot : ℤ) (d : Db K V)
      → IsLinked d
      → 0 < to_size d.max_size
      → (d' : Db K V) × (set_kv dec (ok k) k value slot d ≡ ok d')
        × Becomes d d' (Spec.set dec (to_size d.max_size) k value (view d))
  unfolding set_kv
  set_kv-Spec k value slot d v pos = elim (Option-cases (d.map k)) [
    | inl missing ↦
        let (r, made, b, still) = make_room-Spec d v pos in
        let a = added-Becomes k value slot r b.linked (still k missing) in
        rw (Spec.set-absent dec k (view d) (to_size d.max_size) value (ground arith)) (
          add_entry dec k k value slot r,
          rw (missing, set_kv, made),
          record {
            linked = a.linked;
            viewed = a.viewed ∙ (λ i. record {
              order = k ∷ (b.viewed i).order;
              store = Table.insert dec k value (b.viewed i).store;
            });
            settings_kept = a.settings_kept ∙ b.settings_kept;
          },
        )
    | inr (e, found) ↦
        rw (Spec.set-present dec k (view d) (to_size d.max_size) value e.value (ground arith)) (
          moved dec k e value d,
          rw (found, set_kv, refresh-moved dec k e value d v found),
          moved-Becomes dec k e value d v found,
        )
  ]

  -- A write of a key that is there does what the specification's does, whatever the limit is, and
  -- leaves the multimap of the slots as it is.
  pub set_kv-present :
      (deref_end : Result K) (k : K) (value : V) (slot : ℤ) (e : Entry V) (d : Db K V)
      → IsLinked d
      → d.map k ≡ some e
      → (d' : Db K V) × (set_kv dec deref_end k value slot d ≡ ok d')
        × Becomes d d' (Spec.use_key dec k value (view d))
        × (d'.slot_to_key ≡ d.slot_to_key)
  unfolding set_kv
  set_kv-present deref_end k value slot e d v found = (
    moved dec k e value d,
    rw (found, set_kv, refresh-moved dec k e value d v found),
    moved-Becomes dec k e value d v found,
    refl,
  )

  make_room-fails : (d : Db K V) (x : Fault) → make_room dec d ≡ err x → x ≡ undefined
  unfolding make_room
  make_room-fails d x h = ground arith

  -- Where `mapItor->first` of `map_.end()` is the undefined behaviour that the standard says, every
  -- write of a new key is undefined, whatever the store holds.
  pub set_kv_absent :
      (k : K) (value : V) (slot : ℤ) (d : Db K V)
      → d.map k ≡ none
      → set_kv dec (err undefined) k value slot d ≡ err undefined
  unfolding set_kv
  set_kv_absent k value slot d missing = elim (Result-cases (make_room dec d)) [
    | inl (r, made) ↦ rw (set_kv, missing, made) refl
    | inr (x, failed) ↦ rw (set_kv, missing, failed) (ap (λ y. err y) (make_room-fails d x failed))
  ]
