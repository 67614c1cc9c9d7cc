-- ===== src/Threads/Pool/Waits.antt =====
-- No worker and no caller of `run` sleeps over what it waits for, and tasks are taken in their order.
use pp_d_scache.Base.{
  ℕ, ◌+◌, ◌≡◌, ◌≤◌, ◌<◌, refl, subst, Bool, true, false, List, [], ◌∷◌, ◌++◌, length, ok, arith,
}
use pp_d_scache.Threads.Pool.{
  ThreadPool, init, start, notify_not_empty, notify_all_not_empty, put_task, run, stop, Event, runs,
  stops, tests, takes, finishes, goes_on_take, goes_on_run, wakes_worker, wakes_caller, happen,
  run_all,
}
use pp_d_scache.Threads.Pool.Steps.{IsSlack, happen-IsSlack}

run_all-IsSlack :
    (es : List Event) (p : ThreadPool) → IsSlack 0 0 0 p → IsSlack 0 0 0 (run_all es p)
unfolding run_all
run_all-IsSlack [] p v = v
run_all-IsSlack (e ∷ es) p v = run_all-IsSlack es (happen e p) (happen-IsSlack e p v)

-- No thread sleeps over what it waits for: where workers sleep, each task of the queue has a notified
-- worker, and none sleeps once the pool has stopped; where callers of `run` sleep, the queue and the
-- notified callers fill the bound. The queue keeps to its bound, and tasks leave it as they came.
abbrev pub IsServed : ThreadPool → Type 0
IsServed p =
    (0 < p.empty_sleepers → length p.queue ≤ p.empty_woken)
    × (p.running ≡ false → p.empty_sleepers ≡ 0)
    × (0 < length p.full_sleepers → p.max_queue_size ≤ length p.queue + length p.full_woken)
    × (0 < p.max_queue_size → length p.queue ≤ p.max_queue_size)
    × (p.puts ≡ p.takes ++ p.queue)

-- In every history of a pool that was started, in which the threads act in any order: where workers
-- sleep, each task of the queue has a notified worker, and none sleeps once the pool has stopped;
-- where callers of `run` sleep, the queue and the notified callers fill the bound; the queue keeps
-- to its bound, and the tasks leave it in the order in which they came.
pub run_all-IsServed :
    (max_size num_threads : ℕ) (es : List Event) (p : ThreadPool)
    → start num_threads (init max_size) ≡ ok p
    → IsServed (run_all es p)
unfolding init start
run_all-IsServed max_size num_threads es p h =
    let same : record (init max_size) {
      running = true;
      threads = num_threads;
      at_test = num_threads;
    }
        ≡ p =
      cc in
    let v = run_all-IsSlack es p (
      subst (IsSlack 0 0 0) same (record {
        small = λ h. omega arith;
        served = λ h. omega arith;
        filled = λ h. absurd (omega (arith, h));
        limited = λ h. absurd (omega (arith, h));
        stopped = λ h. refl;
        workers = omega arith;
        order = refl;
      })) in
    (λ s. omega (arith, v.served s), v.stopped, λ s. omega (arith, v.filled s), v.small, v.order)

-- Whether a wakeup comes without a notification.
abbrev pub is_spurious : Event → Bool
is_spurious wakes_caller = true
is_spurious _ = false

-- Once all workers of a pool have left their loop, as they do after `stop`, no step notifies a caller
-- that waits in `run`, and no worker comes back: but for wakeups without a notification, the callers
-- wait for ever.
pub callers_left :
    (e : Event) (p : ThreadPool)
    → p.at_test + p.at_take + p.busy + p.empty_sleepers + p.empty_woken ≡ 0
    → is_spurious e ≡ false
    → (length p.full_sleepers ≤ length (happen e p).full_sleepers)
      × ((happen e p).at_test
            + (happen e p).at_take
            + (happen e p).busy
            + (happen e p).empty_sleepers
            + (happen e p).empty_woken
          ≡ 0)
unfolding happen run put_task notify_not_empty stop notify_all_not_empty
callers_left (runs t) p h s = (ground arith, ground arith)
callers_left stops p h s = (omega arith, omega arith)
callers_left tests p h s = (ground arith, ground arith)
callers_left takes p h s = (ground arith, ground arith)
callers_left finishes p h s = (ground arith, ground arith)
callers_left goes_on_take p h s = (ground arith, ground arith)
callers_left goes_on_run p h s = (ground arith, ground arith)
callers_left wakes_worker p h s = (ground arith, ground arith)
callers_left wakes_caller p h s = absurd (ground (arith, s))
