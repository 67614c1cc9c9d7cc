-- ===== src/Threads/Pool/Examples.antt =====
-- The theorems on the pool at one worker and a queue of one task.
use pp_d_scache.Base.{◌+◌, ◌≡◌, ◌≤◌, refl, true, false, List, [], ◌∷◌, length, ok}
use pp_d_scache.Threads.Pool.{
  ThreadPool, init, start, put_task, notify_not_empty, notify_all_not_empty, notify_not_full, run,
  take, test_running, stop, Event, runs, stops, tests, takes, finishes, goes_on_take, happen,
  run_all,
}
use pp_d_scache.Threads.Pool.Waits.{IsServed, run_all-IsServed, callers_left}

abbrev started : ThreadPool
started = record {
  max_queue_size = 1;
  running = true;
  threads = 1;
  queue = [];
  at_test = 1;
  at_take = 0;
  busy = 0;
  exited = 0;
  empty_sleepers = 0;
  empty_woken = 0;
  full_sleepers = [];
  full_woken = [];
  puts = [];
  takes = [];
}

-- The worker waits and is woken for the first task; a caller waits with the third one; the pool is
-- stopped, and the worker leaves.
abbrev events : List Event
events = tests ∷ takes ∷ runs 1 ∷ goes_on_take ∷ runs 2 ∷ runs 3 ∷ stops ∷ finishes ∷ tests ∷ []

abbrev left : ThreadPool
left = record {
  max_queue_size = 1;
  running = false;
  threads = 1;
  queue = 2 ∷ [];
  at_test = 0;
  at_take = 0;
  busy = 0;
  exited = 1;
  empty_sleepers = 0;
  empty_woken = 0;
  full_sleepers = 3 ∷ [];
  full_woken = [];
  puts = 1 ∷ 2 ∷ [];
  takes = 1 ∷ [];
}

left_reached : run_all events started ≡ left
unfolding run_all happen run put_task notify_not_empty notify_all_not_empty notify_not_full take
    test_running stop
left_reached = refl

started_reached : start 1 (init 1) ≡ ok started
unfolding start init
started_reached = refl

run_all-IsServed_example : IsServed (run_all events started)
run_all-IsServed_example = run_all-IsServed 1 1 events started started_reached

callers_left_example :
    (length left.full_sleepers ≤ length (happen tests left).full_sleepers)
    × ((happen tests left).at_test
          + (happen tests left).at_take
          + (happen tests left).busy
          + (happen tests left).empty_sleepers
          + (happen tests left).empty_woken
        ≡ 0)
callers_left_example = callers_left tests left refl refl
