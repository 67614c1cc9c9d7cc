-- ===== src/Net/LoopPool/Examples.antt =====
-- The theorems on the pool at two loops, 7 and 8, and a base loop 1.
use pp_d_scache.Base.{
  ℕ, ◌+◌, ◌%◌, ◌<◌, ◌≡◌, refl, true, List, [], ◌∷◌, length, get_elem?, arith, ok,
}
use pp_d_scache.Base.Int.{pos}
use pp_d_scache.Net.LoopPool.{LoopPool}
use pp_d_scache.Net.LoopPool.Turns.{IsReady, next_loops, next_loops_turns}

abbrev two_loops : LoopPool ℕ
two_loops = record {
  base_loop = 1;
  started = true;
  num_threads = pos 2;
  next = 1;
  loops = 7 ∷ 8 ∷ [];
}

two_loops-IsReady : IsReady two_loops
two_loops-IsReady = record { running = refl; in_range = omega arith }

next_loops_turns_example :
    (l : List ℕ) × (q : LoopPool ℕ) × (next_loops 3 two_loops ≡ ok (l, q))
    × IsReady q
    × (length l ≡ 3)
    × ((i : ℕ) → i < 3 → get_elem? l i ≡ get_elem? two_loops.loops ((1 + i) % 2))
next_loops_turns_example = next_loops_turns 3 two_loops two_loops-IsReady
