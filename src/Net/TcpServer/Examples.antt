-- ===== src/Net/TcpServer/Examples.antt =====
-- The theorem on the server at two connections, of which one closes, on a pool without threads.
use pp_d_scache.Base.{ℕ, ◌≡◌, refl, true, false, List, [], ◌∷◌, some, ok, ℕ_discrete}
use pp_d_scache.Base.Table
use pp_d_scache.Base.Int.{pos}
use pp_d_scache.Base.Text.{Str, Str-discrete}
use pp_d_scache.Net.LoopPool.{LoopPool, get_next_loop}
use pp_d_scache.Net.TcpServer.{
  Conn, System, established, init, new_connection, Event, accepts, closes, removes, happen, run,
}
use pp_d_scache.Net.TcpServer.Lives.{fresh, run-registered}

abbrev conn_name : ℕ → Str
conn_name n = n ∷ []

conn_name_apart : (i j : ℕ) → conn_name i ≡ conn_name j → i ≡ j
conn_name_apart i j h = cc

abbrev pool : LoopPool ℕ
pool = record { base_loop = 0; started = true; num_threads = pos 0; next = 0; loops = [] }

abbrev events : List Event
events = accepts 5 ∷ accepts 6 ∷ closes 1 ∷ []

abbrev conn_1 : Conn ℕ
conn_1 = record { id = 1; name = conn_name 1; loop = 0; sockfd = 5 }

abbrev conn_2 : Conn ℕ
conn_2 = record { id = 2; name = conn_name 2; loop = 0; sockfd = 6 }

abbrev final : System ℕ
final = record {
  server = record {
    pool = pool;
    started = false;
    listening = false;
    next_conn_id = 3;
    connections =
        Table.insert Str-discrete (conn_name 2) conn_2
          (Table.insert Str-discrete (conn_name 1) conn_1 Table.empty);
    tasks = established conn_2 ∷ established conn_1 ∷ [];
  };
  open_conns =
      Table.erase ℕ_discrete 1
        (Table.insert ℕ_discrete 2 conn_2 (Table.insert ℕ_discrete 1 conn_1 Table.empty));
  removing = Table.insert ℕ_discrete 1 conn_1 Table.empty;
}

final_reached : run conn_name events (fresh pool) ≡ ok final
unfolding run happen new_connection get_next_loop init ℕ_discrete
final_reached = refl

run-registered_example :
    ((i : ℕ) (c : Conn ℕ) → final.open_conns i ≡ some c → final.server.connections c.name ≡ some c)
    × ((i : ℕ) → (t : System ℕ) × (happen conn_name (removes i) final ≡ ok t))
run-registered_example = run-registered conn_name conn_name_apart pool events final final_reached
