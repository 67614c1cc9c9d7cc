-- ===== src/Net/TcpServer.antt =====
-- master/net/TcpServer.h and TcpServer.cc: the table of the connections of a server, in the thread of
-- its loop, over a type of loops. `conn_name` is the text that `newConnection` makes for a number
-- with `snprintf`.
pub mod Lives
mod Examples
use pp_d_scache.Base.{
  ℕ, suc, ◌+◌, ◌^◌, Bool, true, false, not, List, [], ◌∷◌, Option, none, some, ltb, if◌then◌else◌,
  Result, ok, err, ◌>>=◌, ◌>>◌, ℕ_discrete,
}
use pp_d_scache.Base.Table
use pp_d_scache.Base.Table.{Table}
use pp_d_scache.Base.Text.{Str, Str-discrete}
use pp_d_scache.Net.Buffer.{require}
use pp_d_scache.Net.LoopPool.{LoopPool, get_next_loop}
use pp_d_scache.Net.LoopPool

-- A connection of the server: its number, its name, its loop and its socket.
pub record Conn (Loop : Type 0) : Type 0 where
  pub id : ℕ
  pub name : Str
  pub loop : Loop
  pub sockfd : ℕ

-- What the server hands to the loop of a connection: `connectEstablished` and `connectDestroyed`.
pub data Task (Loop : Type 0) : Type 0 where
  established destroyed : Conn Loop → Task Loop

-- The fields of `TcpServer`; `listening` is that of its acceptor, and `tasks` the history, the latest
-- one first.
pub record TcpServer (Loop : Type 0) : Type 0 where
  pub pool : LoopPool Loop
  pub started : Bool
  pub listening : Bool
  pub next_conn_id : ℕ
  pub connections : Table Str (Conn Loop)
  pub tasks : List (Task Loop)

abbrev pub is_there : {A : Type 0} → Option A → Bool
is_there none = false
is_there (some a) = true

module _ {Loop : Type 0} where
  unfoldable pub init : LoopPool Loop → TcpServer Loop
  init pool = record {
    pool = pool;
    started = false;
    listening = false;
    next_conn_id = 1;
    connections = Table.empty;
    tasks = [];
  }

  -- `start_loop` and `has_cb` are those of the pool's `start`; the acceptor listens in its loop.
  unfoldable pub start : (ℕ → Loop) → Bool → TcpServer Loop → Result (TcpServer Loop)
  start start_loop has_cb s = if s.started then ok s else (do
    (called, pool) ← LoopPool.start start_loop has_cb s.pool
    require (not s.listening)
    ok (record s { pool = pool; started = true; listening = true }))

  -- The largest `int` has no successor.
  unfoldable pub new_connection :
      (ℕ → Str) → ℕ → TcpServer Loop → Result (Conn Loop × TcpServer Loop)
  new_connection conn_name sockfd s = do
    (io_loop, pool) ← get_next_loop s.pool
    require (ltb (suc s.next_conn_id) (2 ^ 31))
    let conn : Conn Loop = record {
      id = s.next_conn_id;
      name = conn_name s.next_conn_id;
      loop = io_loop;
      sockfd = sockfd;
    }
    ok (
      conn,
      record s {
        pool = pool;
        next_conn_id = suc s.next_conn_id;
        connections = Table.insert Str-discrete conn.name conn s.connections;
        tasks = established conn ∷ s.tasks;
      },
    )

  unfoldable pub remove_connection_in_loop : Conn Loop → TcpServer Loop → Result (TcpServer Loop)
  remove_connection_in_loop conn s = do
    require (is_there (s.connections conn.name))
    ok (record s {
      connections = Table.erase Str-discrete conn.name s.connections;
      tasks = destroyed conn ∷ s.tasks;
    })

-- A server with the connections that are open, and those whose `removeConnectionInLoop` is queued, by
-- their numbers.
pub record System (Loop : Type 0) : Type 0 where
  pub server : TcpServer Loop
  pub open_conns : Table ℕ (Conn Loop)
  pub removing : Table ℕ (Conn Loop)

-- The acceptor gives a socket; an open connection closes and calls `removeConnection`, once; the loop
-- runs a queued `removeConnectionInLoop`, in any order of the connections.
pub data Event : Type 0 where
  accepts closes removes : ℕ → Event

unfoldable pub happen : {Loop : Type 0} → (ℕ → Str) → Event → System Loop → Result (System Loop)
happen conn_name (accepts sockfd) s = do
  (conn, server) ← new_connection conn_name sockfd s.server
  ok (record s { server = server; open_conns = Table.insert ℕ_discrete conn.id conn s.open_conns })
happen conn_name (closes id) s = elim (s.open_conns id) [
  | none ↦ ok s
  | some conn ↦ ok (record s {
    open_conns = Table.erase ℕ_discrete id s.open_conns;
    removing = Table.insert ℕ_discrete id conn s.removing;
  })
]
happen conn_name (removes id) s = elim (s.removing id) [
  | none ↦ ok s
  | some conn ↦ do
    server ← remove_connection_in_loop conn s.server
    ok (record s { server = server; removing = Table.erase ℕ_discrete id s.removing })
]

unfoldable pub run : {Loop : Type 0} → (ℕ → Str) → List Event → System Loop → Result (System Loop)
run conn_name [] s = ok s
run conn_name (e ∷ es) s = do t ← happen conn_name e s; run conn_name es t
