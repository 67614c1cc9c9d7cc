-- ===== src/Logging/Async/Examples.antt =====
-- The theorems on the asynchronous log at a few lines.
use pp_d_scache.Base.{ℕ, List, [], ◌∷◌, ◌++◌, true, false, some, ok, ◌≡◌, ◌⊎◌, inl, refl}
use pp_d_scache.Base.Text.{Str, codes}
use pp_d_scache.Logging.Async.{
  AsyncLogging, init, finished, Event, logs, goes_on, stops, happen, run, append, buffer_append,
  go_on, begin_round, collect, write_out, recycle, all_text,
}
use pp_d_scache.Logging.Async.Kept.{pending}
use pp_d_scache.Logging.Async.Rounds.{run_keeps}
use pp_d_scache.Logging.Async.Stop.{run_stopped}

abbrev message : ℕ → Str
message n = codes "Dropped log messages"

-- Two lines around a round, and the end.
abbrev events : List Event
events = logs (codes "ab") ∷ goes_on ∷ goes_on ∷ goes_on ∷ logs (codes "c") ∷ stops ∷ goes_on ∷ []

abbrev after : AsyncLogging
after = record init {
  running = false;
  current_buffer = some (codes "c");
  phase = finished;
  output = codes "ab";
  logged = codes "abc";
}

events_run : run message events init ≡ ok after
unfolding run happen append buffer_append go_on begin_round collect write_out recycle all_text
events_run = refl

run_keeps_example :
    (l : AsyncLogging) × (run message events init ≡ ok l)
    × ((l.dropped ≡ true) ⊎ (l.output ++ pending l ≡ l.logged))
run_keeps_example = run_keeps message events

-- A line is logged, and `stop` is called before the next round.
abbrev stopped : AsyncLogging
stopped = record init { running = false; current_buffer = some (codes "ab"); logged = codes "ab" }

run_stopped_example : ◌≡◌ {A = Str} (record stopped { phase = finished }).output []
unfolding run happen go_on
run_stopped_example =
    run_stopped message (goes_on ∷ []) stopped (record stopped { phase = finished }) refl (inl refl)
      refl
