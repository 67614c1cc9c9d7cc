-- ===== src/Cache/Db/Examples.antt =====
-- The theorems on `Db` at concrete stores.
use pp_d_scache.Base.{
  ℕ, ℕ_discrete, ◌≡◌, refl, false, [], ◌∷◌, List, true, ◌⊎◌, ltb, ok, err, undefined,
}
use pp_d_scache.Base.Int.{pos}
use pp_d_scache.Base.Table
use pp_d_scache.Cache.Db.{Db, add_entry, set_kv, make_room}
use pp_d_scache.Cache.Db.Invariant.{IsLinked, added-IsLinked}
use pp_d_scache.Cache.Db.Refine.{view, Becomes, KeepsSlots}
use pp_d_scache.Cache.Db.History.{
  Call, get, del, set, call, run, spec_call, spec_run, is_known, all_known, run-Spec,
}
use pp_d_scache.Cache.Db.Spec
use pp_d_scache.Cache.Nodes.{back, pop_back}

-- A store with room for one key, without one and with one.
abbrev no_keys : Db ℕ ℕ
no_keys = record {
  slots_num = pos 0;
  scale_up = false;
  slots = λ i. ltb i 10;
  max_size = pos 1;
  lru_list = [];
  map = Table.empty;
  slot_to_key = Table.empty;
  fresh = 0;
}

abbrev one_key : Db ℕ ℕ
one_key = add_entry ℕ_discrete 5 5 50 (pos 3) no_keys

no_keys-IsLinked : IsLinked no_keys
no_keys-IsLinked = record {
  falling = tt;
  owned = tt;
  lru_good = λ k e h. cc;
  slot_good = λ k e h. cc;
  slot_owned = λ i k h. cc;
  slot_falling = λ i k h. absurd cc;
}

one_key-IsLinked : IsLinked one_key
one_key-IsLinked = added-IsLinked ℕ_discrete 5 50 (pos 3) no_keys no_keys-IsLinked refl

-- The key that is there is read, written and deleted.
abbrev known_calls : List (Call ℕ ℕ)
known_calls = get 5 ∷ set 5 51 (pos 4) ∷ get 6 ∷ del 5 ∷ []

run-Spec_example :
    ((all_known ℕ_discrete 1 known_calls (view one_key) ≡ true)
      × ((d' : Db ℕ ℕ) × (run ℕ_discrete (λ _. err undefined) known_calls one_key ≡ ok d')
          × Becomes one_key d' (spec_run ℕ_discrete 1 known_calls (view one_key))
          × KeepsSlots one_key d'))
    ⊎ ((all_known ℕ_discrete 1 known_calls (view one_key) ≡ false)
        × (run ℕ_discrete (λ _. err undefined) known_calls one_key ≡ err undefined))
unfolding add_entry
run-Spec_example = run-Spec ℕ_discrete known_calls one_key one_key-IsLinked

known_calls_known : all_known ℕ_discrete 1 known_calls (view one_key) ≡ true
unfolding add_entry all_known is_known spec_call Spec.get Spec.set Spec.del Spec.use_key ℕ_discrete
known_calls_known = refl

new_key_undefined :
    run ℕ_discrete (λ _. err undefined) (set 6 60 (pos 4) ∷ []) one_key ≡ err undefined
unfolding add_entry run call set_kv make_room back ℕ_discrete pop_back
new_key_undefined = refl
