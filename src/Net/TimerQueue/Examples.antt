-- ===== src/Net/TimerQueue/Examples.antt =====
-- The theorems on the timers at a queue with two timers, one of which a callback cancels.
use pp_d_scache.Base.{
  ◌≡◌, refl, sym, subst, ◌∙◌, true, false, List, [], ◌∷◌, some, ◌==◌, if◌then◌else◌, ok, ℕ_discrete,
}
use pp_d_scache.Base.Table
use pp_d_scache.Base.PairSet.{Pair, mem}
use pp_d_scache.Base.PairSet
use pp_d_scache.Net.TimerQueue.{
  TimerQueue, Timer, pair, init, Behaviour, Event, calls, fires, run, adds, cancels, make, is_free,
  add_timer, add_timer_in_loop, insert, is_earliest, reset_timerfd,
}
use pp_d_scache.Net.TimerQueue.Sync.{IsSynced}
use pp_d_scache.Net.TimerQueue.Expiry.{get_expired-due, Expires}
use pp_d_scache.Net.TimerQueue.Firing.{run-IsSynced}

-- The first callback cancels the timer at 48, which runs with it, and the others do nothing.
abbrev behave : Behaviour
behave callback q = if callback == 1 then cancels (pair 48 2) ∷ [] else []

abbrev events : List Event
events = calls (adds 16 1 5 10 true) ∷ calls (adds 48 2 7 10 true) ∷ []

abbrev first : Timer
first = record { callback = 1; expiration = 5; interval = 10; repeat = true; sequence = 1 }

abbrev second : Timer
second = record { callback = 2; expiration = 7; interval = 10; repeat = true; sequence = 2 }

abbrev waiting : TimerQueue
waiting = record {
  heap = Table.insert ℕ_discrete 48 second (Table.insert ℕ_discrete 16 first Table.empty);
  timers = pair 5 16 ∷ pair 7 48 ∷ [];
  active_timers = pair 16 1 ∷ pair 48 2 ∷ [];
  calling_expired_timers = false;
  canceling_timers = [];
  num_created = 2;
  armed = some 5;
}

waiting_reached : run behave events init ≡ ok waiting
unfolding run init make is_free add_timer add_timer_in_loop insert is_earliest reset_timerfd mem
    PairSet.insert ℕ_discrete
waiting_reached = refl

waiting-IsSynced : IsSynced (λ p. false) waiting
waiting-IsSynced =
    let (r, e, v) = run-IsSynced behave events in
    let same : r ≡ waiting = (let f : ok r ≡ ok waiting = sym e ∙ waiting_reached in cc) in
    subst (IsSynced (λ p. false)) same v

run-IsSynced_example :
    (r : TimerQueue) × (run behave (calls (cancels (pair 16 9)) ∷ fires 7 ∷ fires 20 ∷ events) init
      ≡ ok r)
    × IsSynced (λ p. false) r
run-IsSynced_example =
    run-IsSynced behave (calls (cancels (pair 16 9)) ∷ fires 7 ∷ fires 20 ∷ events)

get_expired-due_example : Expires 6 waiting
get_expired-due_example = get_expired-due 6 waiting waiting-IsSynced
