-- ===== src/Net/Connection/Closing.antt =====
-- How a connection ends.
use pp_d_scache.Base.{
  ◌≡◌, refl, true, false, Bool, not, ◌&&◌, ◌||◌, ◌++◌, [], ◌∷◌, arith, if◌then◌else◌, ok,
}
use pp_d_scache.Net.Buffer.{Buffer, Received}
use pp_d_scache.Net.Channel.{Revents, disable_all, handle_event, handle_event_with_guard}
use pp_d_scache.Net.Connection.{
  TcpConnection, disconnected, connection_callback, close_callback, is_open, Wrote, wrote, again,
  reset, callbacks, handle_close, handle_write, handle_error,
}

-- The connection after it was closed.
abbrev pub closed : TcpConnection → TcpConnection
closed c = record c {
  state = disconnected;
  channel = disable_all c.channel;
  effects = c.effects ++ (connection_callback ∷ close_callback ∷ []);
}

closed_write : (w : Wrote) (c : TcpConnection) → handle_write w (closed c) ≡ ok (closed c)
unfolding handle_write
closed_write (wrote n) c = refl
closed_write again c = refl
closed_write reset c = refl

-- When the peer has hung up and nothing is there to read, an open connection is closed: each of the two
-- callbacks is called once, no byte of the output is written, whatever the socket would take, and
-- nothing else comes of an error or of room for writing that is reported with it. If the object is
-- gone, nothing is done.
pub handle_event-closed :
    (on_message : Buffer → Buffer) (received : Received) (w : Wrote) (tied alive : Bool)
    (r : Revents) (c : TcpConnection)
    → is_open c.state ≡ true
    → r.pollhup ≡ true
    → (r.pollin || r.pollpri || r.pollrdhup) ≡ false
    → handle_event tied alive (callbacks on_message received w) r c
      ≡ ok (if tied && not alive then c else closed c)
unfolding handle_event handle_event_with_guard handle_close handle_error
handle_event-closed on_message received w tied alive r c live hup quiet =
    ground (arith, closed_write w c)
