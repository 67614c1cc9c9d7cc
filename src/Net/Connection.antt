-- ===== src/Net/Connection.antt =====
-- master/net/TcpConnection.h and TcpConnection.cc: `TcpConnection` in the thread of its loop, over its
-- channel. What the socket answers and what the callback of messages
-- does to the input buffer are parameters.
pub mod Delivery
pub mod Closing
mod Examples
use pp_d_scache.Base.{
  ℕ, ◌+◌, ◌-◌, Bool, true, false, not, ◌&&◌, ◌||◌, List, [], ◌∷◌, ◌++◌, Option, none, some, length,
  take, drop, ltb, leb, ◌==◌, if◌then◌else◌, Result, ok, err, ◌>>=◌, ◌>>◌, undefined,
}
use pp_d_scache.Base.Text.{Str, codes}
use pp_d_scache.Net.Buffer.{
  Buffer, Received, bytes, failed, require, readable_bytes, content, append, retrieve, read_fd,
}
use pp_d_scache.Net.Buffer
use pp_d_scache.Net.Channel.{
  Channel, Callbacks, enable_reading, disable_reading, enable_writing, disable_writing, disable_all,
}
use pp_d_scache.Net.Channel

-- `StateE`
pub data StateE : Type 0 where
  disconnected connecting connected disconnecting : StateE

abbrev pub is_disconnected : StateE → Bool
is_disconnected disconnected = true
is_disconnected _ = false

abbrev pub is_connecting : StateE → Bool
is_connecting connecting = true
is_connecting _ = false

abbrev pub is_connected : StateE → Bool
is_connected connected = true
is_connected _ = false

abbrev pub is_open : StateE → Bool
is_open connected = true
is_open disconnecting = true
is_open _ = false

abbrev pub is_disconnecting : StateE → Bool
is_disconnecting disconnecting = true
is_disconnecting _ = false

-- What the connection does to others, in its order: the callbacks that it calls, those that it queues
-- in its loop, and the calls of the socket and of the loop.
pub data Effect : Type 0 where
  connection_callback message_callback close_callback : Effect
  queued_write_complete queued_force_close queued_delayed_close : Effect
  queued_high_water_mark : ℕ → Effect
  shutdown_write remove_channel : Effect

-- The fields of `TcpConnection`. `sent` is the history of the bytes that the socket accepted, and
-- `effects` that of the effects.
pub record TcpConnection : Type 0 where
  pub state : StateE
  pub reading : Bool
  pub channel : Channel
  pub high_water_mark : ℕ
  pub has_write_complete : Bool
  pub has_high_water_mark : Bool
  pub input : Buffer
  pub output : Buffer
  pub sent : Str
  pub effects : List Effect

unfoldable pub init : TcpConnection
init = record {
  state = connecting;
  reading = true;
  channel = Channel.init;
  high_water_mark = 67108864;
  has_write_complete = false;
  has_high_water_mark = false;
  input = Buffer.init Buffer.initial_size;
  output = Buffer.init Buffer.initial_size;
  sent = [];
  effects = [];
}

abbrev pub emit : Bool → Effect → TcpConnection → TcpConnection
emit b e c = record c { effects = if b then c.effects ++ (e ∷ []) else c.effects }

unfoldable pub set_high_water_mark : ℕ → TcpConnection → TcpConnection
set_high_water_mark mark c = record c { high_water_mark = mark; has_high_water_mark = true }

unfoldable pub set_write_complete : TcpConnection → TcpConnection
set_write_complete c = record c { has_write_complete = true }

-- What `sockets::write` gives: how many bytes the socket took, or an errno: `reset` is `EPIPE` or
-- `ECONNRESET`, `again` any other.
pub data Wrote : Type 0 where
  wrote : ℕ → Wrote
  again reset : Wrote

-- The direct write of `sendInLoop`: `nwrote`, `faultError`, and the connection.
unfoldable pub write_direct : Wrote → Str → TcpConnection → ℕ × (Bool × TcpConnection)
write_direct (wrote n) data_ c = (
  n,
  (
    false,
    emit (leb (length data_) n && c.has_write_complete) queued_write_complete
        (record c { sent = c.sent ++ take n data_ }),
  ),
)
write_direct again data_ c = (0, (false, c))
write_direct reset data_ c = (0, (true, c))

-- The connection with the last `remaining` bytes appended to its output buffer.
abbrev pub queued : ℕ → Buffer → TcpConnection → TcpConnection
queued remaining output c =
    let old_len = readable_bytes c.output in
    let d =
      emit
        (leb c.high_water_mark (old_len + remaining)
          && ltb old_len c.high_water_mark
          && c.has_high_water_mark)
        (queued_high_water_mark (old_len + remaining)) c in
    record d {
      output = output;
      channel = if c.channel.writing then c.channel else enable_writing c.channel;
    }

-- The rest of `sendInLoop`: what was not written goes to the output buffer.
unfoldable pub queue_rest : ℕ → Bool → Str → TcpConnection → Result TcpConnection
queue_rest nwrote fault_error data_ c = do
  require (leb nwrote (length data_))
  if fault_error || leb (length data_ - nwrote) 0 then ok c else (do
    output ← append (drop nwrote data_) c.output
    ok (queued (length data_ - nwrote) output c))

-- Nothing is written directly while something waits to be written.
unfoldable pub send_in_loop : Wrote → Str → TcpConnection → Result TcpConnection
send_in_loop w data_ c =
    if is_disconnected c.state
    then ok c
    else if not c.channel.writing && leb (readable_bytes c.output) 0
    then (let r = write_direct w data_ c in queue_rest r.0 r.1.0 data_ r.1.1)
    else queue_rest 0 false data_ c

-- `send` in the thread of the loop.
unfoldable pub send : Wrote → Str → TcpConnection → Result TcpConnection
unfolding send_in_loop
send w data_ c = if is_connected c.state then send_in_loop w data_ c else ok c

-- `send` of a buffer in the thread of the loop: its bytes are sent and it is emptied.
unfoldable pub send_buffer : Wrote → Buffer → TcpConnection → Result (Buffer × TcpConnection)
unfolding send_in_loop
send_buffer w buf c =
    if is_connected c.state
    then (do c' ← send_in_loop w (content buf) c; ok (Buffer.retrieve_all buf, c'))
    else ok (buf, c)

unfoldable pub shutdown_in_loop : TcpConnection → TcpConnection
shutdown_in_loop c = emit (not c.channel.writing) shutdown_write c

-- `shutdown` in the thread of the loop, where `runInLoop` calls at once.
unfoldable pub shutdown : TcpConnection → TcpConnection
unfolding shutdown_in_loop
shutdown c =
    if is_connected c.state then shutdown_in_loop (record c { state = disconnecting }) else c

unfoldable pub handle_close : TcpConnection → Result TcpConnection
handle_close c = do
  require (is_open c.state)
  ok (record c {
    state = disconnected;
    channel = disable_all c.channel;
    effects = c.effects ++ (connection_callback ∷ close_callback ∷ []);
  })

unfoldable pub force_close : TcpConnection → TcpConnection
force_close c =
    if is_open c.state then emit true queued_force_close (record c { state = disconnecting }) else c

-- The delay is that of the timer that is added.
unfoldable pub force_close_with_delay : TcpConnection → TcpConnection
force_close_with_delay c =
    if is_open c.state
    then emit true queued_delayed_close (record c { state = disconnecting })
    else c

abbrev pub state_to_string : StateE → Str
state_to_string disconnected = codes "kDisconnected"
state_to_string connecting = codes "kConnecting"
state_to_string connected = codes "kConnected"
state_to_string disconnecting = codes "kDisconnecting"

unfoldable pub force_close_in_loop : TcpConnection → Result TcpConnection
unfolding handle_close
force_close_in_loop c = if is_open c.state then handle_close c else ok c

unfoldable pub start_read_in_loop : TcpConnection → TcpConnection
start_read_in_loop c =
    if not c.reading || not c.channel.reading
    then record c { reading = true; channel = enable_reading c.channel }
    else c

unfoldable pub stop_read_in_loop : TcpConnection → TcpConnection
stop_read_in_loop c =
    if c.reading || c.channel.reading
    then record c { reading = false; channel = disable_reading c.channel }
    else c

unfoldable pub connect_established : TcpConnection → Result TcpConnection
connect_established c = do
  require (is_connecting c.state)
  ok (
      emit true connection_callback
        (record c { state = connected; channel = enable_reading c.channel }))

unfoldable pub connect_destroyed : TcpConnection → Result TcpConnection
connect_destroyed c = do
  let d =
      if is_connected c.state
      then emit true connection_callback
          (record c { state = disconnected; channel = disable_all c.channel })
      else c
  channel ← Channel.remove d.channel
  ok (emit true remove_channel (record d { channel = channel }))

unfoldable pub handle_error : TcpConnection → Result TcpConnection
handle_error c = ok c

-- `on_message` is what the callback of messages leaves in the input buffer.
unfoldable pub handle_read : (Buffer → Buffer) → Received → TcpConnection → Result TcpConnection
unfolding handle_close handle_error
handle_read on_message (failed errno) c = handle_error c
handle_read on_message (bytes []) c = handle_close c
handle_read on_message (bytes (x ∷ s)) c = do
  (_, input) ← read_fd (bytes (x ∷ s)) c.input
  ok (emit true message_callback (record c { input = on_message input }))

-- The end of `handleWrite`, after the last byte was written.
unfoldable pub write_done : TcpConnection → TcpConnection
unfolding shutdown_in_loop
write_done c =
    let d =
      emit c.has_write_complete queued_write_complete
        (record c { channel = disable_writing c.channel }) in
    if is_disconnecting c.state then shutdown_in_loop d else d

unfoldable pub handle_write : Wrote → TcpConnection → Result TcpConnection
handle_write again c = ok c
handle_write reset c = ok c
handle_write (wrote n) c = if not c.channel.writing || leb n 0 then ok c else (do
  output ← retrieve n c.output
  let d = record c { output = output; sent = c.sent ++ take n (content c.output) }
  ok (if leb (readable_bytes output) 0 then write_done d else d))

-- What the constructor sets for the channel: `received` is what `readv` gives, and `w` what `write`.
abbrev pub callbacks : (Buffer → Buffer) → Received → Wrote → Callbacks TcpConnection
callbacks on_message received w = record {
  close = handle_close;
  error = handle_error;
  read = handle_read on_message received;
  write = handle_write w;
}
