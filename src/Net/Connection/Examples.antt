-- ===== src/Net/Connection/Examples.antt =====
-- The theorems on connections at one with three bytes that wait, and at one with none.
use pp_d_scache.Base.{◌≡◌, ◌⊎◌, refl, true, false, [], ◌++◌, replicate, arith, ok}
use pp_d_scache.Base.Text.{codes}
use pp_d_scache.Net.Buffer.{Buffer, readable_bytes}
use pp_d_scache.Net.Buffer.{bytes}
use pp_d_scache.Net.Channel.{Revents, handle_event}
use pp_d_scache.Net.Connection.{
  TcpConnection, wrote, connected, callbacks, send_in_loop, handle_write,
}
use pp_d_scache.Net.Connection.Closing.{closed, handle_event-closed}
use pp_d_scache.Net.Connection.Delivery.{IsSane, stream, send_in_loop-stream, handle_write-stream}

abbrev base : Buffer
base = record { buffer = replicate 16 0; reader = 8; writer = 8 }

abbrev calm : TcpConnection
calm = record {
  state = connected;
  reading = true;
  channel = record { reading = true; writing = false; added = true };
  high_water_mark = 67108864;
  has_write_complete = true;
  has_high_water_mark = true;
  input = base;
  output = base;
  sent = codes "ab";
  effects = [];
}

calm-IsSane : IsSane calm
calm-IsSane = record {
  valid = record { ordered = omega arith; within = omega arith; base = omega arith };
  watched = λ e. refl;
}

abbrev busy : TcpConnection
busy = record calm {
  channel = record { reading = true; writing = true; added = true };
  output = record { buffer = replicate 8 0 ++ codes "cde"; reader = 8; writer = 11 };
}

busy-IsSane : IsSane busy
busy-IsSane = record {
  valid = record { ordered = omega arith; within = omega arith; base = omega arith };
  watched = λ e. cc;
}

-- The socket takes two of five bytes.
send_in_loop-stream_example :
    (c' : TcpConnection) × (send_in_loop (wrote 2) (codes "hello") calm ≡ ok c')
    × IsSane c'
    × (stream c' ≡ stream calm ++ codes "hello")
send_in_loop-stream_example =
    send_in_loop-stream (wrote 2) (codes "hello") calm calm-IsSane refl (omega arith)

handle_write-stream_example :
    (c' : TcpConnection) × (handle_write (wrote 3) busy ≡ ok c')
    × IsSane c'
    × (stream c' ≡ stream busy)
    × ((c'.effects ≡ busy.effects) ⊎ (readable_bytes c'.output ≡ 0))
handle_write-stream_example = handle_write-stream (wrote 3) busy busy-IsSane (omega arith)

-- The peer hangs up with an error while three bytes wait.
abbrev hung_up : Revents
hung_up = record {
  pollin = false;
  pollpri = false;
  pollout = true;
  pollhup = true;
  pollrdhup = false;
  pollerr = true;
  pollnval = false;
}

handle_event-closed_example :
    handle_event true true (callbacks (λ b. b) (bytes []) (wrote 3)) hung_up busy ≡ ok (closed busy)
handle_event-closed_example =
    handle_event-closed (λ b. b) (bytes []) (wrote 3) true true hung_up busy refl refl refl
