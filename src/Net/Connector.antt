-- ===== src/Net/Connector.antt =====
-- master/net/Connector.h and Connector.cc: `Connector`, in the thread of its loop. What the socket calls
-- answer is a parameter of each function that makes them.
pub mod Account
pub mod Backoff
mod Examples
use pp_d_scache.Base.{
  ℕ, ◌*◌, Bool, true, false, not, List, [], ◌∷◌, Option, none, some, ltb, min, if◌then◌else◌,
  Result, ok, err, ◌>>=◌, ◌>>◌, or_fault, undefined,
}
use pp_d_scache.Net.Buffer.{require}
use pp_d_scache.Net.Channel.{Channel, enable_writing, disable_all}
use pp_d_scache.Net.Channel

-- `States`
pub data States : Type 0 where
  disconnected connecting connected : States

abbrev pub is_disconnected : States → Bool
is_disconnected disconnected = true
is_disconnected _ = false

abbrev pub is_connecting : States → Bool
is_connecting connecting = true
is_connecting _ = false

-- kMaxRetryDelayMs
abbrev pub max_retry_delay_ms : ℕ
max_retry_delay_ms = 30000

-- kInitRetryDelayMs
abbrev pub init_retry_delay_ms : ℕ
init_retry_delay_ms = 500

-- What the connector does to others. The delay of `run_after` is in milliseconds, and its
-- functor, like `queued_start`, is `startInLoop`.
pub data Effect : Type 0 where
  opened closed new_connection : ℕ → Effect
  run_after : ℕ → Effect
  queued_stop queued_reset : Effect

-- The fields of `Connector`; the channel stands with its `fd()`. `effects` is the history,
-- the latest one first.
pub record Connector : Type 0 where
  pub connect : Bool
  pub state : States
  pub channel : Option (ℕ × Channel)
  pub retry_delay_ms : ℕ
  pub effects : List Effect

unfoldable pub init : Connector
init = record {
  connect = false;
  state = disconnected;
  channel = none;
  retry_delay_ms = init_retry_delay_ms;
  effects = [];
}

abbrev pub emit : Effect → Connector → Connector
emit e c = record c { effects = e ∷ c.effects }

-- The errno of `sockets::connect`, 0 where it succeeded.
pub data Errno : Type 0 where
  success einprogress eintr eisconn : Errno
  eagain eaddrinuse eaddrnotavail econnrefused enetunreach : Errno
  eacces eperm eafnosupport ealready ebadf efault enotsock : Errno
  other : Errno

unfoldable pub connecting_to : ℕ → Connector → Result Connector
connecting_to sockfd c = do
  require (elim c.channel [ none ↦ true | some ch ↦ false ])
  ok (record c { state = connecting; channel = some (sockfd, enable_writing Channel.init) })

unfoldable pub retry : ℕ → Connector → Connector
retry sockfd c =
    let d = record (emit (closed sockfd) c) { state = disconnected } in
    if c.connect
    then record (emit (run_after c.retry_delay_ms) d) {
      retry_delay_ms = min (c.retry_delay_ms * 2) max_retry_delay_ms;
    }
    else d

-- The `switch` of `connect`.
unfoldable pub handle_errno : Errno → ℕ → Connector → Result Connector
unfolding connecting_to retry
handle_errno success sockfd c = connecting_to sockfd c
handle_errno einprogress sockfd c = connecting_to sockfd c
handle_errno eintr sockfd c = connecting_to sockfd c
handle_errno eisconn sockfd c = connecting_to sockfd c
handle_errno eagain sockfd c = ok (retry sockfd c)
handle_errno eaddrinuse sockfd c = ok (retry sockfd c)
handle_errno eaddrnotavail sockfd c = ok (retry sockfd c)
handle_errno econnrefused sockfd c = ok (retry sockfd c)
handle_errno enetunreach sockfd c = ok (retry sockfd c)
handle_errno _ sockfd c = ok (emit (closed sockfd) c)

-- `sockfd` is the new socket, and `e` what its connection gives.
unfoldable pub try_connect : ℕ → Errno → Connector → Result Connector
unfolding handle_errno
try_connect sockfd e c = handle_errno e sockfd (emit (opened sockfd) c)

unfoldable pub start_in_loop : ℕ → Errno → Connector → Result Connector
unfolding try_connect
start_in_loop sockfd e c = do
  require (is_disconnected c.state)
  if c.connect then try_connect sockfd e c else ok c

-- `start` in the thread of the loop, where `runInLoop` calls at once.
unfoldable pub start : ℕ → Errno → Connector → Result Connector
unfolding start_in_loop
start sockfd e c = start_in_loop sockfd e (record c { connect = true })

unfoldable pub stop : Connector → Connector
stop c = emit queued_stop (record c { connect = false })

-- The descriptor of the channel, which asks for nothing afterwards; a null channel is undefined.
unfoldable pub remove_and_reset_channel : Connector → Result (ℕ × Connector)
remove_and_reset_channel c = do
  (sockfd, ch) ← or_fault c.channel undefined
  ch' ← Channel.remove (disable_all ch)
  ok (sockfd, emit queued_reset (record c { channel = some (sockfd, ch') }))

unfoldable pub reset_channel : Connector → Connector
reset_channel c = record c { channel = none }

unfoldable pub stop_in_loop : Connector → Result Connector
unfolding remove_and_reset_channel retry
stop_in_loop c =
    if is_connecting c.state
    then (do
      (sockfd, d) ← remove_and_reset_channel (record c { state = disconnected })
      ok (retry sockfd d))
    else ok c

unfoldable pub restart : ℕ → Errno → Connector → Result Connector
unfolding start_in_loop
restart sockfd e c =
    start_in_loop sockfd e
      (record c { state = disconnected; retry_delay_ms = init_retry_delay_ms; connect = true })

-- `failed` is whether `SO_ERROR` is an error, and `self` whether the socket is connected to itself.
unfoldable pub handle_write : Bool → Bool → Connector → Result Connector
unfolding remove_and_reset_channel retry
handle_write failed self c =
    if is_connecting c.state
    then (do
      (sockfd, d) ← remove_and_reset_channel c
      ok (
          if failed
          then retry sockfd d
          else if self
          then retry sockfd d
          else emit (if c.connect then new_connection sockfd else closed sockfd)
              (record d { state = connected })))
    else (do require (is_disconnected c.state); ok c)

unfoldable pub handle_error : Connector → Result Connector
unfolding remove_and_reset_channel retry
handle_error c =
    if is_connecting c.state
    then (do (sockfd, d) ← remove_and_reset_channel c; ok (retry sockfd d))
    else ok c
