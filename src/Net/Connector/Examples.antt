-- ===== src/Net/Connector/Examples.antt =====
-- The theorems on the connector at a history with two refused attempts and one that succeeds.
use pp_d_scache.Base.{◌+◌, ◌≡◌, refl, true, false, List, [], ◌∷◌, none, some, ok, err, undefined}
use pp_d_scache.Net.Channel
use pp_d_scache.Net.Connector.{
  reset_channel, Connector, connected, disconnected, opened, new_connection, queued_reset, closed,
  run_after, econnrefused, einprogress, success, init, retry, restart, start_in_loop, start,
  handle_write,
}
use pp_d_scache.Net.Connector.Account.{
  happen, Event, System, run, all_calm, total, opens, settles, held, starts, restarts, timer_fires,
  becomes_writable, runs_reset, run-balanced,
}
use pp_d_scache.Net.Connector.Backoff.{Delays, run-Delays, timer_after_restart}

abbrev events : List Event
events =
    starts 3 econnrefused
    ∷ timer_fires 4 einprogress
    ∷ becomes_writable true false
    ∷ runs_reset
    ∷ timer_fires 3 success
    ∷ becomes_writable false false
    ∷ []

abbrev final : System
final = record {
  connector = record {
    connect = true;
    state = connected;
    channel = some (3, record { reading = false; writing = false; added = false });
    retry_delay_ms = 2000;
    effects =
        new_connection 3
        ∷ queued_reset
        ∷ opened 3
        ∷ run_after 1000
        ∷ closed 4
        ∷ queued_reset
        ∷ opened 4
        ∷ run_after 500
        ∷ closed 3
        ∷ opened 3
        ∷ [];
  };
  ran = 1;
}

final_reached : run events (record { connector = init; ran = 0 }) ≡ ok final
unfolding run init happen start handle_write Channel.remove reset_channel
final_reached = refl

events_calm : all_calm events (record { connector = init; ran = 0 }) ≡ true
unfolding all_calm init happen start handle_write Channel.remove reset_channel
events_calm = refl

run-balanced_example :
    total (opens 3) final.connector.effects
    ≡ total (settles 3) final.connector.effects
      + held 3 final.connector.state final.connector.channel
run-balanced_example = run-balanced 3 events final events_calm final_reached

run-Delays_example : Delays final.connector.effects
run-Delays_example = run-Delays events final final_reached

abbrev eager : Connector
eager = record {
  connect = true;
  state = disconnected;
  channel = none;
  retry_delay_ms = 500;
  effects = [];
}

timer_after_restart_example :
    (d : Connector) × (restart 4 success (retry 3 eager) ≡ ok d)
    × (d.effects ≡ opened 4 ∷ run_after 500 ∷ closed 3 ∷ [])
    × (d.channel ≡ some (4, Channel.enable_writing Channel.init))
    × (start_in_loop 5 success d ≡ err undefined)
timer_after_restart_example = timer_after_restart 3 4 5 success eager refl refl

-- A restart while the attempt with the socket 3 goes on: the socket is never closed.
restart_leaks :
    run (starts 3 einprogress ∷ restarts 4 econnrefused ∷ []) (record { connector = init; ran = 0 })
    ≡ ok (record {
      connector = record eager {
        channel = some (3, Channel.enable_writing Channel.init);
        retry_delay_ms = 1000;
        effects = run_after 500 ∷ closed 4 ∷ opened 4 ∷ opened 3 ∷ [];
      };
      ran = 0;
    })
unfolding run init happen start restart retry
restart_leaks = refl
