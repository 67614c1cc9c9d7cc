-- ===== src/Net/LoopPool.antt =====
-- master/net/EventLoopThreadPool.h and EventLoopThreadPool.cc: `EventLoopThreadPool`, over a type of
-- loops. Every call is made in the thread of the base loop, where `assertInLoopThread` returns.
pub mod Turns
mod Examples
use pp_d_scache.Base.{
  ℕ, zero, suc, ◌+◌, ◌%◌, Bool, true, false, not, ◌&&◌, List, [], ◌∷◌, ◌++◌, length, get_elem?, leb,
  if◌then◌else◌, Result, ok, ◌>>=◌, ◌>>◌, or_fault, undefined,
}
use pp_d_scache.Base.Int.{ℤ, pos, negsuc, int_eq}
use pp_d_scache.Net.Buffer.{require}

pub record LoopPool (Loop : Type 0) : Type 0 where
  pub base_loop : Loop
  pub started : Bool
  pub num_threads : ℤ
  pub next : ℕ
  pub loops : List Loop

-- How often `i < numThreads_` holds from 0 on.
abbrev pub rounds : ℤ → ℕ
rounds (pos n) = n
rounds (negsuc n) = 0

module _ {Loop : Type 0} where
  unfoldable pub init : Loop → LoopPool Loop
  init base = record {
    base_loop = base;
    started = false;
    num_threads = pos 0;
    next = 0;
    loops = [];
  }

  abbrev pub set_thread_num : ℤ → LoopPool Loop → LoopPool Loop
  set_thread_num n p = record p { num_threads = n }

  -- The loops that the threads `i`, `i + 1`, … start, where there are `n` of them.
  unfoldable pub start_loops : (ℕ → Loop) → ℕ → ℕ → List Loop
  start_loops start_loop i zero = []
  start_loops start_loop i (suc n) = start_loop i ∷ start_loops start_loop (suc i) n

  -- `start_loop i` is the loop of the thread `i`, and `has_cb` tells whether `cb` holds a function. The
  -- first component is whether `cb` is called on the base loop.
  unfoldable pub start : (ℕ → Loop) → Bool → LoopPool Loop → Result (Bool × LoopPool Loop)
  unfolding start_loops
  start start_loop has_cb p = do
    require (not p.started)
    ok (
      int_eq p.num_threads (pos 0) && has_cb,
      record p {
        started = true;
        loops = p.loops ++ start_loops start_loop 0 (rounds p.num_threads);
      },
    )

  unfoldable pub get_next_loop : LoopPool Loop → Result (Loop × LoopPool Loop)
  get_next_loop p = do
    require p.started
    if leb (length p.loops) 0 then ok (p.base_loop, p) else (do
      loop ← or_fault (get_elem? p.loops p.next) undefined
      ok (loop, record p { next = if leb (length p.loops) (suc p.next) then 0 else suc p.next }))

  unfoldable pub get_loop_for_hash : ℕ → LoopPool Loop → Result Loop
  get_loop_for_hash hash_code p =
      if leb (length p.loops) 0
      then ok p.base_loop
      else or_fault (get_elem? p.loops (hash_code % length p.loops)) undefined

  unfoldable pub get_all_loops : LoopPool Loop → Result (List Loop)
  get_all_loops p = do
    require p.started
    ok (if leb (length p.loops) 0 then p.base_loop ∷ [] else p.loops)
