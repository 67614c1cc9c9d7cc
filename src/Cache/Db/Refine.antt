-- ===== src/Cache/Db/Refine.antt =====
-- The operations of `Db` implement `Spec`: on a linked store they return, keep it linked, and do to
-- its view what the specification does.
use pp_d_scache.Base.{
  ℕ, Bool, ◌≡◌, refl, fun_ext, inl, inr, ◌∷◌, Option, none, some, arith, Option-cases, ok,
}
use pp_d_scache.Base.Table
use pp_d_scache.Base.Table.{Table}
use pp_d_scache.Cache.Nodes.{keys, remove, keys-erase_node}
use pp_d_scache.Base.Int.{ℤ}
use pp_d_scache.Cache.Db.{Db, Bitset, Entry, refresh, get_kv, del_kv}
use pp_d_scache.Cache.Db.Invariant.{
  IsLinked, lru_at, moved, removed, here, moved-IsLinked, removed-IsLinked,
}
use pp_d_scache.Cache.Db.Spec.{View, last, init}
use pp_d_scache.Cache.Db.Spec

-- The fields that no operation on the keys changes.
pub record Settings : Type 0 where
  pub slots_num : ℤ
  pub scale_up : Bool
  pub slots : Bitset
  pub max_size : ℤ

module _ {K V : Type 0} where
  abbrev pub value_at : Table K (Entry V) → K → Option V
  value_at m k = elim (m k) [ none ↦ none | some e ↦ some e.value ]

  abbrev pub view : Db K V → View K V
  view d = record { order = keys d.lru_list; store = value_at d.map }

  abbrev pub settings : Db K V → Settings
  settings d = record {
    slots_num = d.slots_num;
    scale_up = d.scale_up;
    slots = d.slots;
    max_size = d.max_size;
  }

  -- The outcome `d'` of an operation: linked, with the given view, and its settings kept.
  pub record Becomes (d d' : Db K V) (w : View K V) : Type 0 where
    pub linked : IsLinked d'
    pub viewed : view d' ≡ w
    pub settings_kept : settings d' ≡ settings d

  -- The nodes of the multimap that are left are as they were, with their slots and keys.
  abbrev pub KeepsSlots : Db K V → Db K V → Type 0
  KeepsSlots d d' = (i : ℕ) (x : ℤ × K) → d'.slot_to_key i ≡ some x → d.slot_to_key i ≡ some x

module _ {K V : Type 0} (dec : Discrete K) where
  pub refresh-moved :
      (k : K) (e : Entry V) (value : V) (d : Db K V)
      → IsLinked d
      → d.map k ≡ some e
      → refresh dec k (record e { value = value }) d ≡ ok (moved dec k e value d)
  unfolding refresh
  refresh-moved k e value d v found = ground (arith, v.lru_good k e found)

  pub moved-Becomes :
      (k : K) (e : Entry V) (value : V) (d : Db K V)
      → IsLinked d
      → d.map k ≡ some e
      → Becomes d (moved dec k e value d) (Spec.use_key dec k value (view d))
  unfolding Spec.use_key
  moved-Becomes k e value d v found = record {
    linked = moved-IsLinked dec k e d v found value;
    viewed = λ i. record {
      order =
          k
          ∷ keys-erase_node dec (lru_at d.map) k e.lru_itor (here dec k e d v found) d.lru_list
              v.owned (v.lru_good k e found) i;
      store =
          fun_ext {f = value_at (moved dec k e value d).map}
            {g = Table.insert dec k value (value_at d.map)} (λ j. ground arith) i;
    };
    settings_kept = refl;
  }

  pub removed-Becomes :
      (k : K) (e : Entry V) (d : Db K V)
      → IsLinked d
      → d.map k ≡ some e
      → Becomes d (removed dec k e d) (record {
        order = remove dec k (keys d.lru_list);
        store = Table.erase dec k (value_at d.map);
      })
  removed-Becomes k e d v found = record {
    linked = removed-IsLinked dec k e d v found;
    viewed = λ i. record {
      order =
          keys-erase_node dec (lru_at d.map) k e.lru_itor (here dec k e d v found) d.lru_list
            v.owned (v.lru_good k e found) i;
      store =
          fun_ext {f = value_at (removed dec k e d).map} {g = Table.erase dec k (value_at d.map)}
            (λ j. ground arith) i;
    };
    settings_kept = refl;
  }

  pub same-Becomes : (d : Db K V) → IsLinked d → Becomes d d (view d)
  same-Becomes d v = record { linked = v; viewed = refl; settings_kept = refl }

  -- On a linked store a read returns what the specification reads, makes the key the most recently used
  -- one, and leaves the multimap of the slots as it is.
  pub get_kv-Spec :
      (k : K) (d : Db K V)
      → IsLinked d
      → (d' : Db K V) × (get_kv dec k d ≡ ok ((Spec.get dec k (view d)).0, d'))
        × Becomes d d' (Spec.get dec k (view d)).1
        × (d'.slot_to_key ≡ d.slot_to_key)
  unfolding get_kv
  get_kv-Spec k d v = elim (Option-cases (d.map k)) [
    | inl missing ↦
        rw (Spec.get-absent dec k (view d) (ground arith))
          (d, rw (missing, get_kv), same-Becomes d v, refl)
    | inr (e, found) ↦ rw (Spec.get-present dec k (view d) e.value (ground arith)) (
      moved dec k e e.value d,
      rw (found, get_kv, refresh-moved k e e.value d v found),
      moved-Becomes k e e.value d v found,
      refl,
    )
  ]

  -- On a linked store a deletion does what the specification's does: it reports whether the key was there,
  -- and forgets it; the slots of the other keys stay as they are.
  pub del_kv-Spec :
      (k : K) (d : Db K V)
      → IsLinked d
      → (d' : Db K V) × (del_kv dec k d ≡ ok ((Spec.del dec k (view d)).0, d'))
        × Becomes d d' (Spec.del dec k (view d)).1
        × KeepsSlots d d'
  unfolding del_kv
  del_kv-Spec k d v = elim (Option-cases (d.map k)) [
    | inl missing ↦
        rw (Spec.del-absent dec k (view d) (ground arith))
          (d, rw (missing, del_kv), same-Becomes d v, λ i x h. h)
    | inr (e, found) ↦ rw (Spec.del-present dec k (view d) e.value (ground arith)) (
      removed dec k e d,
      ground (arith, v.lru_good k e found, v.slot_good k e found),
      removed-Becomes k e d v found,
      λ i x h. ground (arith, h),
    )
  ]
