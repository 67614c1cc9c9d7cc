-- ===== src/Threads/BoundedQueue.antt =====
-- master/base/BoundedBlockingQueue.h: `BoundedBlockingQueue`, as the steps of any number of threads.
-- A step is what a thread does between two waits, with `mutex_` held. A thread that waits for a
-- condition may be woken at any time, notified or not, and then tests again, as the loops do.
pub mod Order
mod Examples
use pp_d_scache.Base.{
  ℕ, ◌≡◌, Bool, List, [], ◌∷◌, ◌++◌, Option, none, some, length, ◌==◌, leb, if◌then◌else◌, Result,
  ok, err, ◌>>=◌, or_fault, undefined,
}

-- `puts` and `takes` are the history: the elements that were put and taken, in their order.
pub record Queue (T : Type 0) : Type 0 where
  pub max_size : ℕ
  pub queue : List T
  pub puts : List T
  pub takes : List T

module _ {T : Type 0} where
  unfoldable pub init : ℕ → Queue T
  init max_size = record { max_size = max_size; queue = []; puts = []; takes = [] }

  abbrev pub empty : Queue T → Bool
  empty q = leb (length q.queue) 0

  abbrev pub full : Queue T → Bool
  full q = length q.queue == q.max_size

  -- `put` from a test of the loop on: `none` where it waits for `notFull_`.
  unfoldable pub put : T → Queue T → Result (Option (Queue T))
  put x q =
      if full q
      then ok none
      else if leb q.max_size (length q.queue)
      then err undefined
      else ok (some (record q { queue = q.queue ++ (x ∷ []); puts = q.puts ++ (x ∷ []) }))

  -- `take` from a test of the loop on: `none` where it waits for `notEmpty_`.
  unfoldable pub take : Queue T → Result (Option (T × Queue T))
  take q = elim q.queue [
    | [] ↦ ok none
    | x ∷ xs ↦ ok (some (x, record q { queue = xs; takes = q.takes ++ (x ∷ []) }))
  ]

-- An attempt of a thread that has the mutex.
pub data Attempt (T : Type 0) : Type 0 where
  puts : T → Attempt T
  takes : Attempt T

-- An attempt, whichever thread makes it.
unfoldable pub attempt : {T : Type 0} → Attempt T → Queue T → Result (Queue T)
attempt (puts x) q = do o ← put x q; elim o [ none ↦ ok q | some r ↦ ok r ]
attempt takes q = do o ← take q; elim o [ none ↦ ok q | some (x, r) ↦ ok r ]

-- Attempts of any threads in any order.
unfoldable pub run : {T : Type 0} → List (Attempt T) → Queue T → Result (Queue T)
run [] q = ok q
run (a ∷ l) q = do r ← attempt a q; run l r
