-- ===== src/Cache/Db/Slots.antt =====
-- The slots of a `Db`: what the two updates leave and report.
use pp_d_scache.Base.{ℕ, ◌<◌, ◌≡◌, ◌↔◌, true, false, arith, ok}
use pp_d_scache.Base.Int.{ℤ, to_size}
use pp_d_scache.Cache.Db.{Db, Bitset, slots_max, del_slots, test_slot}

module _ {K V : Type 0} (d : Db K V) where
  -- After `delSlots` the caller's bitset has exactly the slots that left the server, if the new slots
  -- are some of the old ones, and a slot tests as set exactly when it is among the new ones.
  pub del_slots_moved :
      (new_slots : Bitset) (slot : ℤ)
      → ((i : ℕ) → new_slots i ≡ true → d.slots i ≡ true)
      → to_size slot < slots_max
      → (((del_slots new_slots d).0 (to_size slot) ≡ true)
          ↔ ((test_slot slot d ≡ ok true) × (test_slot slot (del_slots new_slots d).1 ≡ ok false)))
        × (test_slot slot (del_slots new_slots d).1 ≡ ok (new_slots (to_size slot)))
  unfolding del_slots test_slot
  del_slots_moved new_slots slot sub h = ground (arith, sub (to_size slot))
