-- ===== src/Threads/Pool.antt =====
-- master/base/ThreadPool.h and ThreadPool.cc: `ThreadPool`, as the steps of its workers and of the
-- callers of `run`. A step is what a thread does with `mutex_` held, or between two such parts. The
-- workers are counted by the point where they stand; a task is a number.
pub mod Steps
pub mod Waits
mod Examples
use pp_d_scache.Base.{
  ℕ, zero, suc, ◌+◌, Bool, true, false, not, ◌&&◌, List, [], ◌∷◌, ◌++◌, length, ◌==◌, ltb, leb,
  if◌then◌else◌, Result, ok, err, ◌>>=◌, ◌>>◌,
}
use pp_d_scache.Net.Buffer.{require}

-- The fields of `ThreadPool`. The workers stand before the test of `running_`, before that of `take`,
-- in a task, behind the loop, or wait for `notEmpty_`, notified or not. The callers that wait for
-- `notFull_` stand with their tasks. `puts` and `takes` are the history of the queue.
pub record ThreadPool : Type 0 where
  pub max_queue_size : ℕ
  pub running : Bool
  pub threads : ℕ
  pub queue : List ℕ
  pub at_test : ℕ
  pub at_take : ℕ
  pub busy : ℕ
  pub exited : ℕ
  pub empty_sleepers : ℕ
  pub empty_woken : ℕ
  pub full_sleepers : List ℕ
  pub full_woken : List ℕ
  pub puts : List ℕ
  pub takes : List ℕ

-- A pool, with `setMaxQueueSize`, which comes before `start`.
unfoldable pub init : ℕ → ThreadPool
init max_size = record {
  max_queue_size = max_size;
  running = false;
  threads = 0;
  queue = [];
  at_test = 0;
  at_take = 0;
  busy = 0;
  exited = 0;
  empty_sleepers = 0;
  empty_woken = 0;
  full_sleepers = [];
  full_woken = [];
  puts = [];
  takes = [];
}

unfoldable pub start : ℕ → ThreadPool → Result ThreadPool
start num_threads p = do
  require (p.threads == 0)
  ok (record p { running = true; threads = num_threads; at_test = num_threads })

abbrev pub is_full : ThreadPool → Bool
is_full p = ltb 0 p.max_queue_size && leb p.max_queue_size (length p.queue)

-- `notEmpty_.notify()`, `notEmpty_.notifyAll()` and `notFull_.notify()`.
unfoldable pub notify_not_empty : ThreadPool → ThreadPool
notify_not_empty p = elim p.empty_sleepers [
  | zero ↦ p
  | suc n ↦ record p { empty_sleepers = n; empty_woken = suc p.empty_woken }
]

unfoldable pub notify_all_not_empty : ThreadPool → ThreadPool
notify_all_not_empty p = record p {
  empty_sleepers = 0;
  empty_woken = p.empty_sleepers + p.empty_woken;
}

unfoldable pub notify_not_full : ThreadPool → ThreadPool
notify_not_full p = elim p.full_sleepers [
  | [] ↦ p
  | t ∷ l ↦ record p { full_sleepers = l; full_woken = t ∷ p.full_woken }
]

-- `run` from a test of its loop on.
unfoldable pub put_task : ℕ → ThreadPool → ThreadPool
put_task task p =
    if is_full p
    then record p { full_sleepers = task ∷ p.full_sleepers }
    else notify_not_empty
        (record p { queue = p.queue ++ (task ∷ []); puts = p.puts ++ (task ∷ []) })

-- Without threads the caller does the task itself.
unfoldable pub run : ℕ → ThreadPool → ThreadPool
run task p = if p.threads == 0 then p else put_task task p

-- `take` from a test of its loop on, and what `runInThread` does with the task that it gives, if any.
unfoldable pub take : ThreadPool → ThreadPool
take p = elim p.queue [
  | [] ↦
      if p.running
      then record p { empty_sleepers = suc p.empty_sleepers }
      else record p { at_test = suc p.at_test }
  | t ∷ l ↦
      let p' = record p { queue = l; takes = p.takes ++ (t ∷ []); busy = suc p.busy } in
      if ltb 0 p.max_queue_size then notify_not_full p' else p'
]

-- The test of `running_` in `runInThread`.
unfoldable pub test_running : ThreadPool → ThreadPool
test_running p =
    if p.running then record p { at_take = suc p.at_take } else record p { exited = suc p.exited }

-- `stop` up to the joins.
unfoldable pub stop : ThreadPool → ThreadPool
stop p = notify_all_not_empty (record p { running = false })

-- What happens: calls of `run` and `stop`, steps of workers, threads that go on after a notification,
-- and wakeups without one.
pub data Event : Type 0 where
  runs : ℕ → Event
  stops tests takes finishes : Event
  goes_on_take goes_on_run : Event
  wakes_worker wakes_caller : Event

unfoldable pub happen : Event → ThreadPool → ThreadPool
happen (runs task) p = run task p
happen stops p = stop p
happen tests p = elim p.at_test [ zero ↦ p | suc n ↦ test_running (record p { at_test = n }) ]
happen takes p = elim p.at_take [ zero ↦ p | suc n ↦ take (record p { at_take = n }) ]
happen finishes p = elim p.busy [
  | zero ↦ p
  | suc n ↦ record p { busy = n; at_test = suc p.at_test }
]
happen goes_on_take p = elim p.empty_woken [
  | zero ↦ p
  | suc n ↦ take (record p { empty_woken = n })
]
happen goes_on_run p = elim p.full_woken [
  | [] ↦ p
  | t ∷ l ↦ put_task t (record p { full_woken = l })
]
happen wakes_worker p = notify_not_empty p
happen wakes_caller p = notify_not_full p

unfoldable pub run_all : List Event → ThreadPool → ThreadPool
run_all [] p = p
run_all (e ∷ es) p = run_all es (happen e p)
