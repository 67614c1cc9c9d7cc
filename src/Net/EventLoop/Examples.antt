-- ===== src/Net/EventLoop/Examples.antt =====
-- The theorems on the loop at a history with another thread and a functor that queues another.
use pp_d_scache.Base.{◌+◌, ◌<◌, ◌≡◌, refl, true, false, List, [], ◌∷◌, ok}
use pp_d_scache.Net.EventLoop.{
  EventLoop, outside, polling, init, queue_in_loop, run, happen, start, go_on, test_quit, poll,
  swap_functors, call_functor, wakeup, handle_read, Event, starts, reads_wakeup, wakes, goes_on,
  own_queues, queues,
}
use pp_d_scache.Net.EventLoop.Wakeups.{all_inside, run_awake}

-- Another thread queues 1 and wakes the loop; 1 runs and queues 2, and the loop comes back to `poll`.
abbrev events : List Event
events =
    starts
    ∷ goes_on false
    ∷ queues 1
    ∷ wakes
    ∷ goes_on false
    ∷ reads_wakeup
    ∷ goes_on false
    ∷ goes_on false
    ∷ own_queues 2
    ∷ goes_on false
    ∷ goes_on false
    ∷ []

abbrev final : EventLoop
final = record {
  phase = polling;
  quit = false;
  iteration = 1;
  pending_functors = 2 ∷ [];
  functors = [];
  wakeups = 1;
  waking = 0;
  queued = 1 ∷ 2 ∷ [];
  ran = 1 ∷ [];
}

final_reached : run events init ≡ ok final
unfolding run happen init start go_on test_quit poll swap_functors call_functor wakeup handle_read
    queue_in_loop
final_reached = refl

events_inside : all_inside events init ≡ true
unfolding all_inside happen init start go_on test_quit poll swap_functors call_functor wakeup
    handle_read queue_in_loop
events_inside = refl

run_awake_example : 0 < final.wakeups + final.waking
run_awake_example = run_awake events final events_inside final_reached refl refl

abbrev fresh : EventLoop
fresh = record {
  phase = outside;
  quit = false;
  iteration = 0;
  pending_functors = [];
  functors = [];
  wakeups = 0;
  waking = 0;
  queued = [];
  ran = [];
}
