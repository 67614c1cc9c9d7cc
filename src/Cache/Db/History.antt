-- ===== src/Cache/Db/History.antt =====
-- Histories of calls on a `Db`: what is true after any number of them.
use pp_d_scache.Base.{
  ℕ, ◌+◌, ◌≤◌, ◌<◌, ◌≡◌, refl, ap, sym, ◌∙◌, ◌⊎◌, inl, inr, Bool, true, false, ◌&&◌, List, [], ◌∷◌,
  none, some, arith, length, Bool-cases, Option-cases, Result-cases, Result, ok, err, ◌>>=◌,
  undefined,
}
use pp_d_scache.Base.Int.{ℤ, to_size}
use pp_d_scache.Cache.Nodes.{Node, deref, erase_node, back, pop_back}
use pp_d_scache.Cache.Db.{Db, Entry, refresh, get_kv, del_kv, make_room, add_entry, set_kv}
use pp_d_scache.Cache.Db.Invariant.{IsLinked}
use pp_d_scache.Cache.Db.Refine.{view, Becomes, KeepsSlots, same-Becomes, get_kv-Spec, del_kv-Spec}
use pp_d_scache.Cache.Db.Insert.{set_kv-present, set_kv_absent}
use pp_d_scache.Cache.Db.Spec.{View}
use pp_d_scache.Cache.Db.Spec

pub data Call (K V : Type 0) : Type 0 where
  get : K → Call K V
  del : K → Call K V
  set : K → V → ℤ → Call K V

module _ {K V : Type 0} (dec : Discrete K) where
  -- `deref_end k` is what `mapItor->first` gives in a call of `setKV` for `k` where `mapItor` is
  -- `map_.end()`.
  unfoldable pub call : (K → Result K) → Call K V → Db K V → Result (Db K V)
  call deref_end (get k) d = do (_, d') ← get_kv dec k d; ok d'
  call deref_end (del k) d = do (_, d') ← del_kv dec k d; ok d'
  call deref_end (set k v slot) d = set_kv dec (deref_end k) k v slot d

  unfoldable pub run : (K → Result K) → List (Call K V) → Db K V → Result (Db K V)
  run deref_end [] d = ok d
  run deref_end (c ∷ cs) d = do d' ← call deref_end c d; run deref_end cs d'

  unfoldable pub spec_call : ℕ → Call K V → View K V → View K V
  spec_call limit (get k) w = (Spec.get dec k w).1
  spec_call limit (del k) w = (Spec.del dec k w).1
  spec_call limit (set k v slot) w = Spec.set dec limit k v w

  unfoldable pub spec_run : ℕ → List (Call K V) → View K V → View K V
  spec_run limit [] w = w
  spec_run limit (c ∷ cs) w = spec_run limit cs (spec_call limit c w)

  -- Whether every write is for a key that is present when it is called.
  unfoldable pub is_known : Call K V → View K V → Bool
  is_known (get k) w = true
  is_known (del k) w = true
  is_known (set k v slot) w = elim (w.store k) [ none ↦ false | some old ↦ true ]

  unfoldable pub all_known : ℕ → List (Call K V) → View K V → Bool
  all_known limit [] w = true
  all_known limit (c ∷ cs) w = is_known c w && all_known limit cs (spec_call limit c w)

  call-known :
      (deref_end : K → Result K) (limit : ℕ) (c : Call K V) (d : Db K V)
      → IsLinked d
      → is_known c (view d) ≡ true
      → (d' : Db K V) × (call deref_end c d ≡ ok d')
        × Becomes d d' (spec_call limit c (view d))
        × KeepsSlots d d'
  unfolding call spec_call is_known
  call-known deref_end limit (get k) d v h =
      let (d', e, b, kept) = get_kv-Spec dec k d v in
      (d', rw e, b, λ i x g. sym (ap (λ m. m i) kept) ∙ g)
  call-known deref_end limit (del k) d v h =
      let (d', e, b, kept) = del_kv-Spec dec k d v in (d', rw e, b, kept)
  call-known deref_end limit (set k x slot) d v h = elim (Option-cases (d.map k)) [
    | inl missing ↦ absurd (ground arith)
    | inr (e, found) ↦
        let (d', f, b, kept) = set_kv-present dec (deref_end k) k x slot e d v found in
        rw (Spec.set-present dec k (view d) limit x e.value (ground arith))
          (d', f, b, λ i x g. sym (ap (λ m. m i) kept) ∙ g)
  ]

  call-unknown :
      (c : Call K V) (d : Db K V)
      → is_known c (view d) ≡ false
      → call (λ _. err undefined) c d ≡ err undefined
  unfolding call is_known
  call-unknown (get k) d h = absurd cc
  call-unknown (del k) d h = absurd cc
  call-unknown (set k x slot) d h = set_kv_absent dec k x slot d (ground arith)

  run-from :
      (limit : ℕ) (cs : List (Call K V)) (d : Db K V)
      → IsLinked d
      → ((all_known limit cs (view d) ≡ true)
          × ((d' : Db K V) × (run (λ _. err undefined) cs d ≡ ok d')
              × Becomes d d' (spec_run limit cs (view d))
              × KeepsSlots d d'))
        ⊎ ((all_known limit cs (view d) ≡ false) × (run (λ _. err undefined) cs d ≡ err undefined))
  unfolding run spec_run all_known
  run-from limit [] d v = inl (refl, (d, refl, same-Becomes dec d v, λ i x h. h))
  run-from limit (c ∷ cs) d v = elim (Bool-cases (is_known c (view d))) [
    | inr unknown ↦ inr (rw unknown refl, rw (call-unknown c d unknown) refl)
    | inl known ↦
        let (r, e, b, kept) = call-known (λ _. err undefined) limit c d v known in
        rw (known, e, sym b.viewed)
          (elim (run-from limit cs r b.linked) [
            | inl (all, (d', f, a, keeps)) ↦ inl (
              all,
              (
                d',
                f,
                record {
                  linked = a.linked;
                  viewed = a.viewed;
                  settings_kept = a.settings_kept ∙ b.settings_kept;
                },
                λ i x h. kept i x (keeps i x h),
              ),
            )
            | inr (some_not, f) ↦ inr (some_not, f)
          ])
  ]

  -- Where `mapItor->first` of `map_.end()` is undefined, as the standard says, a history of calls from a
  -- linked store either writes only keys that are present by the specification's history, and then it
  -- returns, ends as that history does, and leaves the settings and the slots of the keys that stay as
  -- they were, or writes another key, and then it is undefined.
  pub run-Spec :
      (cs : List (Call K V)) (d : Db K V)
      → IsLinked d
      → let limit = to_size d.max_size in
        ((all_known limit cs (view d) ≡ true)
          × ((d' : Db K V) × (run (λ _. err undefined) cs d ≡ ok d')
              × Becomes d d' (spec_run limit cs (view d))
              × KeepsSlots d d'))
        ⊎ ((all_known limit cs (view d) ≡ false) × (run (λ _. err undefined) cs d ≡ err undefined))
  run-Spec cs d v = run-from (to_size d.max_size) cs d v

module _ {K : Type 0} where
  length-erase_node :
      (i : ℕ) (k : K) (l : List (Node K))
      → deref i l ≡ some k
      → length (erase_node i l) + 1 ≡ length l
  unfolding deref erase_node
  length-erase_node i k [] e = cc
  length-erase_node i k (x ∷ l) e = ground (arith, length-erase_node i k l)

  length-pop_back :
      (l : List (Node K)) (x : Node K) → back l ≡ some x → length (pop_back l) + 1 ≡ length l
  unfolding back pop_back
  length-pop_back [] x e = cc
  length-pop_back (y ∷ []) x e = omega arith
  length-pop_back (y ∷ z ∷ l) x e = omega (arith, length-pop_back (z ∷ l) x e)

module _ {K V : Type 0} (dec : Discrete K) where
  refresh-length :
      (k : K) (e : Entry V) (d d' : Db K V)
      → refresh dec k e d ≡ ok d'
      → length d'.lru_list ≡ length d.lru_list
  unfolding refresh
  refresh-length k e d d' h = elim (Option-cases (deref e.lru_itor d.lru_list)) [
    | inl gone ↦ absurd (ground arith)
    | inr (j, there) ↦ ground (arith, length-erase_node e.lru_itor j d.lru_list there)
  ]

  make_room-lt :
      (d r : Db K V)
      → length d.lru_list ≤ to_size d.max_size
      → make_room dec d ≡ ok r
      → length r.lru_list < to_size d.max_size
  unfolding make_room
  make_room-lt d r fits h = elim (Option-cases (back d.lru_list)) [
    | inl none_left ↦ ground arith
    | inr (x, last) ↦ ground (arith, length-pop_back d.lru_list x last)
  ]

  -- A write that returns never grows the store beyond its limit, whatever `mapItor->first` gives.
  set_kv_bounded :
      (deref_end : Result K) (k : K) (v : V) (slot : ℤ) (d d' : Db K V)
      → length d.lru_list ≤ to_size d.max_size
      → set_kv dec deref_end k v slot d ≡ ok d'
      → length d'.lru_list ≤ to_size d.max_size
  unfolding set_kv add_entry
  set_kv_bounded deref_end k v slot d d' fits h = elim (Option-cases (d.map k)) [
    | inl missing ↦ elim (Result-cases (make_room dec d)) [
      | inl (r, made) ↦ ground (arith, make_room-lt d r fits made)
      | inr (x, failed) ↦ absurd (ground arith)
    ]
    | inr (e, found) ↦
        omega (arith, refresh-length k (record e { value = v }) d d' (rw (found, set_kv) at h))
  ]
