-- ===== src/Cache/Db.antt =====
-- server/Db.h and server/Db.cc: `Db`, over keys `K` with a decidable equality and values `V`.
pub mod Spec
pub mod Invariant
pub mod Refine
pub mod Insert
pub mod History
pub mod Slots
mod Examples
use pp_d_scache.Base.{
  ℕ, suc, Bool, true, false, xor, Option, none, some, List, ◌∷◌, length, ltb, leb, if◌then◌else◌,
  Result, ok, err, ◌>>=◌, or_fault, undefined, out_of_range, ℕ_discrete,
}
use pp_d_scache.Base.Int.{ℤ, to_size}
use pp_d_scache.Base.Table
use pp_d_scache.Base.Table.{Table}
use pp_d_scache.Cache.Nodes.{Node, deref, erase_node, back, pop_back}

-- SLOTS_NUM
abbrev pub slots_max : ℕ
slots_max = 16384

-- `bitset<SLOTS_NUM>`; positions from `slots_max` on are never read.
abbrev pub Bitset : Type 0
Bitset = ℕ → Bool

-- `mapValue`: the two iterators and the value.
pub record Entry (V : Type 0) : Type 0 where
  pub lru_itor : ℕ
  pub slot_itor : ℕ
  pub value : V

-- The fields of `Db`. `slot_to_key` has the nodes of the multimap by their identity, the number
-- `fresh` is the identity of the next node of either list.
pub record Db (K V : Type 0) : Type 0 where
  pub slots_num : ℤ
  pub scale_up : Bool
  pub slots : Bitset
  pub max_size : ℤ
  pub lru_list : List (Node K)
  pub map : Table K (Entry V)
  pub slot_to_key : Table ℕ (ℤ × K)
  pub fresh : ℕ

module _ {K V : Type 0} where
  -- `lruList_.size() >= maxSize_`, where the `int` is converted to `size_t`.
  abbrev pub is_over_size : Db K V → Bool
  is_over_size d = leb (to_size d.max_size) (length d.lru_list)

  unfoldable pub contain : K → Db K V → Bool
  contain key d = elim (d.map key) [ none ↦ false | some e ↦ true ]

module _ {K V : Type 0} (dec : Discrete K) where
  -- The three statements that `getKV` and `setKV` share: erase the node, push the key to the front,
  -- and keep the new node's iterator. `e` is what the map holds for the key.
  unfoldable pub refresh : K → Entry V → Db K V → Result (Db K V)
  refresh key e d = do
    _ ← or_fault (deref e.lru_itor d.lru_list) undefined
    ok (record d {
      lru_list = record { node = d.fresh; key = key } ∷ erase_node e.lru_itor d.lru_list;
      map = Table.insert dec key (record e { lru_itor = d.fresh }) d.map;
      fresh = suc d.fresh;
    })

  unfoldable pub get_kv : K → Db K V → Result (Option V × Db K V)
  get_kv key d = elim (d.map key) [
    | none ↦ ok (none, d)
    | some e ↦ do d' ← refresh key e d; ok (some e.value, d')
  ]

  unfoldable pub del_kv : K → Db K V → Result (Bool × Db K V)
  del_kv key d = elim (d.map key) [
    | none ↦ ok (false, d)
    | some e ↦ do
      _ ← or_fault (deref e.lru_itor d.lru_list) undefined
      _ ← or_fault (d.slot_to_key e.slot_itor) undefined
      ok (
        true,
        record d {
          map = Table.erase dec key d.map;
          lru_list = erase_node e.lru_itor d.lru_list;
          slot_to_key = Table.erase ℕ_discrete e.slot_itor d.slot_to_key;
        },
      )
  ]

  -- The eviction in `setKV`. For a key that is not there `map_[k]` makes an entry whose iterator
  -- points nowhere, and erasing through that is undefined.
  unfoldable pub make_room : Db K V → Result (Db K V)
  make_room d =
      if is_over_size d
      then (do
        x ← or_fault (back d.lru_list) undefined
        e ← or_fault (d.map x.key) undefined
        _ ← or_fault (d.slot_to_key e.slot_itor) undefined
        ok (record d {
          map = Table.erase dec x.key d.map;
          slot_to_key = Table.erase ℕ_discrete e.slot_itor d.slot_to_key;
          lru_list = pop_back d.lru_list;
        }))
      else ok d

  -- The insertion in `setKV`. `front` is the key that is pushed to the list.
  unfoldable pub add_entry : K → K → V → ℤ → Db K V → Db K V
  add_entry front key value slot d = record d {
    lru_list = record { node = d.fresh; key = front } ∷ d.lru_list;
    slot_to_key = Table.insert ℕ_discrete d.fresh (slot, key) d.slot_to_key;
    map =
        Table.insert dec key (record { lru_itor = d.fresh; slot_itor = d.fresh; value = value })
          d.map;
    fresh = suc d.fresh;
  }

  -- `deref_end` is what `mapItor->first` gives where `mapItor` is `map_.end()`.
  unfoldable pub set_kv : Result K → K → V → ℤ → Db K V → Result (Db K V)
  set_kv deref_end key value slot d = elim (d.map key) [
    | some e ↦ refresh key (record e { value = value }) d
    | none ↦ do d' ← make_room d; front ← deref_end; ok (add_entry front key value slot d')
  ]

module _ {K V : Type 0} where
  unfoldable pub get_slots_num : Db K V → ℤ
  get_slots_num d = d.slots_num

  -- `slots_.size()` is the width of the bitset.
  unfoldable pub set_slot_num : Db K V → Db K V
  set_slot_num d = record d { slots_num = ℤ.pos slots_max }

  unfoldable pub add_slots : Bitset → Db K V → Db K V
  add_slots new_slots d = record d { slots = new_slots }

  -- The caller's bitset is changed too, and is returned first.
  unfoldable pub del_slots : Bitset → Db K V → Bitset × Db K V
  del_slots new_slots d = ((λ i. xor (d.slots i) (new_slots i)), record d { slots = new_slots })

  -- `slots_.test(slot)` throws from `slots_max` on; a negative `int` becomes a large `size_t`.
  unfoldable pub test_slot : ℤ → Db K V → Result Bool
  test_slot slot d =
      if ltb (to_size slot) slots_max then ok (d.slots (to_size slot)) else err out_of_range
