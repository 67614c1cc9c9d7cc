-- ===== src/Net/LoopPool/Turns.antt =====
-- Which loop a call gets: the loops take turns, and a hash code always gets the same one.
use native.Mathlib.Nat.{mod_self, mod-eq_of_lt, mod-add-mod, mod-lt}
use pp_d_scache.Base.{
  ℕ, zero, suc, ◌+◌, ◌%◌, ◌<◌, ◌≡◌, refl, ◌∙◌, ap, sym, Bool, Bool-cases, true, ◌&&◌, inl, inr,
  some, List, [], ◌∷◌, length, get_elem?, arith, leb, if◌then◌else◌, Result, ok, ◌>>=◌,
}
use pp_d_scache.Base.Int.{pos, int_eq}
use pp_d_scache.Net.LoopPool.{
  LoopPool, init, set_thread_num, start, start_loops, get_next_loop, get_loop_for_hash,
}

mod_suc : (i n : ℕ) → i < n → (if leb n (suc i) then 0 else suc i) ≡ (i + 1) % n
mod_suc i n h = elim (Bool-cases (leb n (suc i))) [
  | inl last ↦ let e : i + 1 ≡ n = ground arith in rw (last, e) (sym (mod_self n))
  | inr more ↦ rw more (
      let e : (i + 1) % n ≡ i + 1 = mod-eq_of_lt (let h : i + 1 < n = ground arith in h) in
      omega (arith, e))
]

module _ {Loop : Type 0} where
  -- A started pool with threads, whose next loop is one of them.
  pub record IsReady (p : LoopPool Loop) : Type 0 where
    pub running : p.started ≡ true
    pub in_range : p.next < length p.loops

  -- The loops that `k` calls of `getNextLoop` get in turn.
  unfoldable pub next_loops : ℕ → LoopPool Loop → Result (List Loop × LoopPool Loop)
  next_loops zero p = ok ([], p)
  next_loops (suc k) p = do
    (loop, q) ← get_next_loop p
    (loops, r) ← next_loops k q
    ok (loop ∷ loops, r)

  get_elem?-in_range :
      (l : List Loop) (i : ℕ) → i < length l → (x : Loop) × (get_elem? l i ≡ some x)
  get_elem?-in_range [] i h = absurd (omega arith)
  get_elem?-in_range (x ∷ l) zero h = (x, refl)
  get_elem?-in_range (x ∷ l) (suc i) h = get_elem?-in_range l i (omega arith)

  -- The pool after a call of `getNextLoop`.
  abbrev moved : LoopPool Loop → LoopPool Loop
  moved p = record p { next = if leb (length p.loops) (suc p.next) then 0 else suc p.next }

  moved-IsReady : (p : LoopPool Loop) → IsReady p → IsReady (moved p)
  moved-IsReady p v = record { running = v.running; in_range = ground (arith, v.in_range) }

  get_next_loop_lem :
      (p : LoopPool Loop)
      → IsReady p
      → (x : Loop) × (get_next_loop p ≡ ok (x, moved p)) × (get_elem? p.loops p.next ≡ some x)
  unfolding get_next_loop
  get_next_loop_lem p v =
      let (x, e) = get_elem?-in_range p.loops p.next v.in_range in
      (x, ground (arith, v.running, v.in_range), e)

  turn :
      (p : LoopPool Loop)
      → IsReady p
      → (x : Loop) → get_elem? p.loops p.next ≡ some x
      → (l : List Loop) (k : ℕ)
      → ((i : ℕ)
          → i < k
          → get_elem? l i ≡ get_elem? p.loops (((moved p).next + i) % length p.loops))
      → (i : ℕ) → i < suc k
      → get_elem? (x ∷ l) i ≡ get_elem? p.loops ((p.next + i) % length p.loops)
  turn p v x here l k turns zero h =
      sym here
      ∙ ap (get_elem? p.loops) (
          sym (mod-eq_of_lt v.in_range)
          ∙ ap (λ (j : ℕ). j % length p.loops) (let e : p.next ≡ p.next + 0 = omega arith in e))
  turn p v x here l k turns (suc i) h =
      turns i (omega arith)
      ∙ ap (get_elem? p.loops) (
          ap (λ (j : ℕ). (j + i) % length p.loops) (mod_suc p.next (length p.loops) v.in_range)
          ∙ mod-add-mod (p.next + 1) (length p.loops) i
          ∙ ap (λ (j : ℕ). j % length p.loops)
              (let e : p.next + 1 + i ≡ p.next + suc i = omega arith in e))

  length-start_loops : (start_loop : ℕ → Loop) (i n : ℕ) → length (start_loops start_loop i n) ≡ n
  unfolding start_loops
  length-start_loops start_loop i zero = refl
  length-start_loops start_loop i (suc n) = ap suc (length-start_loops start_loop (suc i) n)

  -- On a started pool with threads any number of calls of `getNextLoop` return, and the loops that
  -- they get are the pool's in turn, from the next one on and past the last one to the first.
  pub next_loops_turns :
      (k : ℕ) (p : LoopPool Loop)
      → IsReady p
      → (l : List Loop) × (q : LoopPool Loop) × (next_loops k p ≡ ok (l, q))
        × IsReady q
        × (length l ≡ k)
        × ((i : ℕ) → i < k → get_elem? l i ≡ get_elem? p.loops ((p.next + i) % length p.loops))
  unfolding next_loops
  next_loops_turns zero p v = ([], p, refl, v, refl, λ i h. absurd (omega arith))
  next_loops_turns (suc k) p v =
      let (x, got, here) = get_next_loop_lem p v in
      let (l, q, rest, w, size, turns) = next_loops_turns k (moved p) (moved-IsReady p v) in
      (x ∷ l, q, rw (got, rest), w, ap suc size, turn p v x here l k turns)

  -- A pool that starts with threads is ready, with one loop for each of them, and one that starts
  -- without gets the base loop at every call, which leaves it as it is.
  pub start-IsReady :
      (start_loop : ℕ → Loop) (has_cb : Bool) (n : ℕ) (base : Loop)
      → (q : LoopPool Loop) × (called : Bool) × (start start_loop has_cb
            (set_thread_num (pos n) (init base))
          ≡ ok (called, q))
        × (called ≡ (int_eq (pos n) (pos 0) && has_cb))
        × (length q.loops ≡ n)
        × (0 < n → IsReady q)
        × (n ≡ 0 → get_next_loop q ≡ ok (base, q))
  unfolding start init get_next_loop
  start-IsReady start_loop has_cb n base =
      let size = length-start_loops start_loop 0 n in
      (
        record (init base) {
          num_threads = pos n;
          started = true;
          loops = start_loops start_loop 0 n;
        },
        int_eq (pos n) (pos 0) && has_cb,
        refl,
        refl,
        size,
        λ h. record { running = refl; in_range = omega (arith, size) },
        λ h. ground (arith, size),
      )

  -- Every hash code gets a loop of the pool, and two codes with the same remainder get the same one.
  pub get_loop_for_hash_mod :
      (hash_code other : ℕ) (p : LoopPool Loop)
      → 0 < length p.loops
      → (x : Loop) × (get_loop_for_hash hash_code p ≡ ok x)
        × (get_elem? p.loops (hash_code % length p.loops) ≡ some x)
        × (other % length p.loops ≡ hash_code % length p.loops → get_loop_for_hash other p ≡ ok x)
  unfolding get_loop_for_hash
  get_loop_for_hash_mod hash_code other p h =
      let (x, e) = get_elem?-in_range p.loops (hash_code % length p.loops) (mod-lt hash_code h) in
      (x, ground (arith, e), e, λ same. rw same (ground (arith, e)))
