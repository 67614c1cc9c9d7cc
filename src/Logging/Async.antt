-- ===== src/Logging/Async.antt =====
-- master/base/AsyncLogging.h and AsyncLogging.cc: the buffers of `AsyncLogging`, as steps of the threads
-- that log and of the thread that writes. What it gives to the log file is a text.
pub mod Kept
pub mod Rounds
pub mod Stop
mod Examples
use pp_d_scache.Base.{
  ℕ, suc, ◌-◌, ◌*◌, Bool, true, false, not, ◌&&◌, List, [], ◌∷◌, ◌++◌, Option, none, some, ltb, leb,
  ◌==◌, if◌then◌else◌, Result, ok, err, ◌>>=◌, ◌>>◌, or_fault, undefined, length, take,
}
use pp_d_scache.Base.Arrays.{pop_back}
use pp_d_scache.Base.Text.{Str}
use pp_d_scache.Net.Buffer.{require}
use pp_d_scache.Logging.Stream.{large_buffer}

-- `FixedBuffer::append` of the text of a buffer.
unfoldable pub buffer_append : Str → Str → Str
buffer_append line b = if ltb (length line) (large_buffer - length b) then b ++ line else b

-- Where the thread stands: at the test of `running_`, in the wait, behind the lock, and at its end.
pub data Phase : Type 0 where
  at_top waiting writing finished : Phase

-- The fields, and the variables of `threadFunc`; a `unique_ptr` is an option. Besides, what was given to
-- the log file, all lines that were logged and fit a buffer, and whether any were dropped.
pub record AsyncLogging : Type 0 where
  pub running : Bool
  pub current_buffer : Option Str
  pub next_buffer : Option Str
  pub buffers : List Str
  pub new_buffer1 : Option Str
  pub new_buffer2 : Option Str
  pub buffers_to_write : List Str
  pub phase : Phase
  pub output : Str
  pub logged : Str
  pub dropped : Bool

-- After `start`.
abbrev pub init : AsyncLogging
init = record {
  running = true;
  current_buffer = some [];
  next_buffer = some [];
  buffers = [];
  new_buffer1 = some [];
  new_buffer2 = some [];
  buffers_to_write = [];
  phase = at_top;
  output = [];
  logged = [];
  dropped = false;
}

-- `nextBuffer_`, or a new buffer.
abbrev pub or_new : Option Str → Str
or_new none = []
or_new (some b) = b

-- The branch of a full buffer.
abbrev pub move_on : Str → Str → AsyncLogging → AsyncLogging
move_on line current l = record l {
  buffers = l.buffers ++ (current ∷ []);
  current_buffer = some (buffer_append line (or_new l.next_buffer));
  next_buffer = none;
}

abbrev pub note_line : Str → AsyncLogging → AsyncLogging
note_line line l = record l {
  logged = if ltb (length line) large_buffer then l.logged ++ line else l.logged;
}

unfoldable pub append : Str → AsyncLogging → Result AsyncLogging
append line l = do
  current ← or_fault l.current_buffer undefined
  let fits = ltb (length line) (large_buffer - length current)
  let kept = record l { current_buffer = some (buffer_append line current) }
  ok (note_line line (if fits then kept else move_on line current l))

abbrev pub is_clear : Option Str → Bool
is_clear none = false
is_clear (some []) = true
is_clear (some (c ∷ s)) = false

abbrev pub is_empty : {A : Type 0} → List A → Bool
is_empty [] = true
is_empty (x ∷ xs) = false

-- The rest of the locked part, after the wait.
unfoldable pub collect : AsyncLogging → Result AsyncLogging
collect l = do
  current ← or_fault l.current_buffer undefined
  ok (record l {
    current_buffer = l.new_buffer1;
    new_buffer1 = none;
    buffers_to_write = l.buffers ++ (current ∷ []);
    buffers = [];
    next_buffer = elim l.next_buffer [ none ↦ l.new_buffer2 | some b ↦ some b ];
    new_buffer2 = elim l.next_buffer [ none ↦ none | some b ↦ l.new_buffer2 ];
    phase = writing;
  })

-- The test of `running_`, the assertions, and the lock up to the wait.
unfoldable pub begin_round : AsyncLogging → Result AsyncLogging
begin_round l = do
  require (is_clear l.new_buffer1)
  require (is_clear l.new_buffer2)
  require (is_empty l.buffers_to_write)
  (if is_empty l.buffers then ok (record l { phase = waiting }) else collect l)

-- A buffer that was given away is taken back from those that were written.
unfoldable pub recycle : Option Str → List Str → Result (Option Str × List Str)
recycle (some b) written = ok (some b, written)
recycle none written = do require (not (is_empty written)); ok (some [], pop_back written)

unfoldable pub all_text : List Str → Str
all_text [] = []
all_text (b ∷ bs) = b ++ all_text bs

-- What happens: a line is logged, the thread goes on, `stop` is called.
pub data Event : Type 0 where
  logs : Str → Event
  goes_on stops : Event

-- `message n` is the text about `n` buffers that were dropped.
module _ (message : ℕ → Str) where
  unfoldable pub write_out : AsyncLogging → Result AsyncLogging
  write_out l = do
    require (not (is_empty l.buffers_to_write))
    let n = length l.buffers_to_write
    let too_many = ltb 25 n
    let to_write = if too_many then take 2 l.buffers_to_write else l.buffers_to_write
    first ← recycle l.new_buffer1 (take 2 to_write)
    second ← recycle l.new_buffer2 first.1
    ok (record l {
      new_buffer1 = first.0;
      new_buffer2 = second.0;
      buffers_to_write = [];
      output = l.output ++ ((if too_many then message (n - 2) else []) ++ all_text to_write);
      dropped = if too_many then true else l.dropped;
      phase = at_top;
    })

  -- The next step of the thread.
  unfoldable pub go_on : AsyncLogging → Result AsyncLogging
  go_on l = elim l.phase [
    | at_top ↦ if l.running then begin_round l else ok (record l { phase = finished })
    | waiting ↦ collect l
    | writing ↦ write_out l
    | finished ↦ ok l
  ]

  unfoldable pub happen : Event → AsyncLogging → Result AsyncLogging
  happen (logs line) l = append line l
  happen goes_on l = go_on l
  happen stops l = ok (record l { running = false })

  unfoldable pub run : List Event → AsyncLogging → Result AsyncLogging
  run [] l = ok l
  run (e ∷ es) l = do l' ← happen e l; run es l'
