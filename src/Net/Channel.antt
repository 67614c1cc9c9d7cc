-- ===== src/Net/Channel.antt =====
-- master/net/Channel.h and Channel.cc: `Channel`, with the events that it asks for as two bits, and the
-- dispatch of the events that came. `updateChannel` and `removeChannel` of the loop are calls of the
-- poller, which keeps what it is told.
use pp_d_scache.Base.{Bool, true, false, not, ◌&&◌, ◌||◌, if◌then◌else◌, Result, ok, ◌>>=◌, ◌>>◌}
use pp_d_scache.Net.Buffer.{require}

-- The bits `kReadEvent` and `kWriteEvent` of `events_`, and `addedToLoop_`.
pub record Channel : Type 0 where
  pub reading : Bool
  pub writing : Bool
  pub added : Bool

abbrev pub init : Channel
init = record { reading = false; writing = false; added = false }

abbrev pub is_none_event : Channel → Bool
is_none_event c = not c.reading && not c.writing

abbrev pub enable_reading : Channel → Channel
enable_reading c = record c { reading = true; added = true }

abbrev pub disable_reading : Channel → Channel
disable_reading c = record c { reading = false; added = true }

abbrev pub enable_writing : Channel → Channel
enable_writing c = record c { writing = true; added = true }

abbrev pub disable_writing : Channel → Channel
disable_writing c = record c { writing = false; added = true }

abbrev pub disable_all : Channel → Channel
disable_all c = record c { reading = false; writing = false; added = true }

unfoldable pub remove : Channel → Result Channel
remove c = do require (is_none_event c); ok (record c { added = false })

-- The bits of `revents_`, each named after its `POLL` constant.
pub record Revents : Type 0 where
  pub pollin : Bool
  pub pollpri : Bool
  pub pollout : Bool
  pub pollhup : Bool
  pub pollrdhup : Bool
  pub pollerr : Bool
  pub pollnval : Bool

-- The four callbacks, on the state `S` of the object that set them.
pub record Callbacks (S : Type 0) : Type 0 where
  pub close : S → Result S
  pub error : S → Result S
  pub read : S → Result S
  pub write : S → Result S

-- A callback that the events ask for.
abbrev pub when : {S : Type 0} → Bool → (S → Result S) → S → Result S
when b callback s = if b then callback s else ok s

unfoldable pub handle_event_with_guard : {S : Type 0} → Callbacks S → Revents → S → Result S
handle_event_with_guard cbs r s = do
  s1 ← when (r.pollhup && not r.pollin) cbs.close s
  s2 ← when (r.pollerr || r.pollnval) cbs.error s1
  s3 ← when (r.pollin || r.pollpri || r.pollrdhup) cbs.read s2
  when r.pollout cbs.write s3

-- `alive` is whether `tie_.lock()` gives the object.
unfoldable pub handle_event : {S : Type 0} → Bool → Bool → Callbacks S → Revents → S → Result S
unfolding handle_event_with_guard
handle_event tied alive cbs r s =
    if tied && not alive then ok s else handle_event_with_guard cbs r s
