-- ===== src/Net/EventLoop.antt =====
-- master/net/EventLoop.h and EventLoop.cc: the loop of a thread, its queue of functors and its wakeup
-- descriptor. The loop goes from phase to phase, and other threads act between its steps. A functor
-- is a number; what the poller reports beside the wakeup descriptor is a parameter.
pub mod Wakeups
mod Examples
use pp_d_scache.Base.{
  ℕ, zero, suc, ◌+◌, Bool, true, false, not, ◌&&◌, ◌||◌, List, [], ◌∷◌, ◌++◌, ltb, if◌then◌else◌,
  Result, ok, err, ◌>>=◌, ◌>>◌,
}
use pp_d_scache.Net.Buffer.{require}

-- Where the loop stands: not in `loop()`, before the test of `quit_`, before `poll`, in the handlers
-- of the events, and in `doPendingFunctors` after the swap.
pub data Phase : Type 0 where
  outside testing polling handling calling : Phase

-- The fields of `EventLoop`, with the local `functors` of `doPendingFunctors`, the counter of the
-- wakeup descriptor and the number of threads that are about to write to it. `queued` and `ran` are
-- the history of functors.
pub record EventLoop : Type 0 where
  pub phase : Phase
  pub quit : Bool
  pub iteration : ℕ
  pub pending_functors : List ℕ
  pub functors : List ℕ
  pub wakeups : ℕ
  pub waking : ℕ
  pub queued : List ℕ
  pub ran : List ℕ

unfoldable pub init : EventLoop
init = record {
  phase = outside;
  quit = false;
  iteration = 0;
  pending_functors = [];
  functors = [];
  wakeups = 0;
  waking = 0;
  queued = [];
  ran = [];
}

-- `looping_`, `eventHandling_` and `callingPendingFunctors_` follow from the phase.
abbrev pub is_looping : Phase → Bool
is_looping outside = false
is_looping _ = true

abbrev pub is_event_handling : Phase → Bool
is_event_handling handling = true
is_event_handling _ = false

abbrev pub is_calling_pending_functors : Phase → Bool
is_calling_pending_functors calling = true
is_calling_pending_functors _ = false

unfoldable pub wakeup : EventLoop → EventLoop
wakeup l = record l { wakeups = suc l.wakeups }

-- The read sets the counter to 0.
unfoldable pub handle_read : EventLoop → EventLoop
handle_read l = record l { wakeups = 0 }

-- In the loop's thread the wakeup follows at once; another thread has it still to do.
unfoldable pub queue_in_loop : Bool → ℕ → EventLoop → EventLoop
queue_in_loop in_loop cb l =
    let l' = record l {
      pending_functors = l.pending_functors ++ (cb ∷ []);
      queued = l.queued ++ (cb ∷ []);
    } in
    if not in_loop
    then record l' { waking = suc l.waking }
    else if is_calling_pending_functors l.phase
    then wakeup l'
    else l'

-- `cb()` itself is what its caller does next.
unfoldable pub run_in_loop : Bool → ℕ → EventLoop → EventLoop
run_in_loop in_loop cb l = if in_loop then l else queue_in_loop in_loop cb l

unfoldable pub call_quit : Bool → EventLoop → EventLoop
call_quit in_loop l =
    let l' = record l { quit = true } in
    if not in_loop then record l' { waking = suc l.waking } else l'

-- The entry of `loop`.
unfoldable pub start : EventLoop → Result EventLoop
start l = do require (not (is_looping l.phase)); ok (record l { phase = testing; quit = false })

-- The test of the `while`.
unfoldable pub test_quit : EventLoop → EventLoop
test_quit l = record l { phase = if l.quit then outside else polling }

-- `poll` returns where the wakeup descriptor can be read, or for another reason, its timeout included.
unfoldable pub poll : Bool → EventLoop → EventLoop
poll other l =
    if other || ltb 0 l.wakeups
    then record l { phase = handling; iteration = suc l.iteration }
    else l

-- `doPendingFunctors` up to the swap, and one round of its loop or its end.
unfoldable pub swap_functors : EventLoop → EventLoop
swap_functors l = record l { phase = calling; functors = l.pending_functors; pending_functors = [] }

unfoldable pub call_functor : EventLoop → EventLoop
call_functor l = elim l.functors [
  | [] ↦ record l { phase = testing }
  | f ∷ rest ↦ record l { functors = rest; ran = l.ran ++ (f ∷ []) }
]

-- What happens: `starts` is a call of `loop`, `goes_on` a step of the loop, with the reason that
-- `poll` may have; `reads_wakeup` is the handler of the wakeup descriptor; `own_queues` and `own_quits`
-- are calls of the loop's own thread, the others those of other threads, and `wakes` is their write.
pub data Event : Type 0 where
  starts reads_wakeup own_quits quits wakes : Event
  goes_on : Bool → Event
  own_queues queues : ℕ → Event

-- The next step of the loop from a phase.
unfoldable pub go_on : Bool → EventLoop → EventLoop
go_on other l = elim l.phase [
  | outside ↦ l
  | testing ↦ test_quit l
  | polling ↦ poll other l
  | handling ↦ swap_functors l
  | calling ↦ call_functor l
]

-- The loop's thread runs code of its user: a handler, a functor, or what stands outside of `loop`.
abbrev pub is_running : Phase → Bool
is_running phase =
    not (is_looping phase) || is_event_handling phase || is_calling_pending_functors phase

unfoldable pub happen : Event → EventLoop → Result EventLoop
happen starts l = start l
happen (goes_on other) l = ok (go_on other l)
happen reads_wakeup l = ok (if is_event_handling l.phase then handle_read l else l)
happen own_quits l = ok (if is_running l.phase then call_quit true l else l)
happen quits l = ok (call_quit false l)
happen wakes l = elim l.waking [ zero ↦ ok l | suc n ↦ ok (wakeup (record l { waking = n })) ]
happen (own_queues cb) l = ok (if is_running l.phase then queue_in_loop true cb l else l)
happen (queues cb) l = ok (queue_in_loop false cb l)

unfoldable pub run : List Event → EventLoop → Result EventLoop
run [] l = ok l
run (e ∷ es) l = do l' ← happen e l; run es l'
