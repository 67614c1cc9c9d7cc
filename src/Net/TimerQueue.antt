-- ===== src/Net/TimerQueue.antt =====
-- master/net/TimerQueue.h, TimerQueue.cc, Timer.h and Timer.cc: the timers of a loop, in its thread.
-- A time is a number of microseconds since the epoch, without the limit of its 64 bits; a timer is
-- known by its address, and the interval is in microseconds, as `addTime` converts it.
pub mod Sync
pub mod Canceling
pub mod Bound
pub mod Adding
pub mod Expiry
pub mod Noting
pub mod Resetting
pub mod Firing
mod Examples
use pp_d_scache.Base.{
  ℕ, suc, ◌+◌, ◌-◌, ◌*◌, ◌/◌, ◌%◌, ◌^◌, Bool, true, false, not, ◌&&◌, List, [], ◌∷◌, Option, none,
  some, ltb, ◌==◌, if◌then◌else◌, Result, ok, err, ◌>>=◌, ◌>>◌, or_fault, undefined, length,
  ℕ_discrete,
}
use pp_d_scache.Base.Table
use pp_d_scache.Base.Table.{Table}
use pp_d_scache.Base.PairSet.{Pair, mem, is_less, erase}
use pp_d_scache.Base.PairSet
use pp_d_scache.Net.Buffer.{require}

-- `Timer`; the callback is a number.
pub record Timer : Type 0 where
  pub callback : ℕ
  pub expiration : ℕ
  pub interval : ℕ
  pub repeat : Bool
  pub sequence : ℕ

-- The fields of `TimerQueue`, with the timers in memory, the number of timers that were created,
-- and the time that the timer descriptor is set for.
pub record TimerQueue : Type 0 where
  pub heap : Table ℕ Timer
  pub timers : List Pair
  pub active_timers : List Pair
  pub calling_expired_timers : Bool
  pub canceling_timers : List Pair
  pub num_created : ℕ
  pub armed : Option ℕ

unfoldable pub init : TimerQueue
init = record {
  heap = Table.empty;
  timers = [];
  active_timers = [];
  calling_expired_timers = false;
  canceling_timers = [];
  num_created = 0;
  armed = none;
}

abbrev pub pair : ℕ → ℕ → Pair
pair a b = record { first = a; second = b }

-- `Entry` and `ActiveTimer` of the timer at an address.
abbrev pub entry : Timer → ℕ → Pair
entry t p = pair t.expiration p

abbrev pub active_timer : Timer → ℕ → Pair
active_timer t p = pair p t.sequence

-- The assertion that both sets have the same size.
abbrev pub check_sizes : TimerQueue → Result (Unit {0})
check_sizes q = require (length q.timers == length q.active_timers)

-- The seconds and the nanoseconds of `how_much_time_from_now`.
unfoldable pub how_much_time_from_now : ℕ → ℕ → ℕ × ℕ
how_much_time_from_now when now =
    let microseconds = if ltb (when - now) 100 then 100 else when - now in
    (microseconds / 1000000, microseconds % 1000000 * 1000)

unfoldable pub reset_timerfd : ℕ → TimerQueue → TimerQueue
reset_timerfd expiration q = record q { armed = some expiration }

unfoldable pub is_earliest : ℕ → List Pair → Bool
is_earliest when [] = true
is_earliest when (x ∷ l) = ltb when x.first

unfoldable pub insert : ℕ → TimerQueue → Result (Bool × TimerQueue)
insert p q = do
  check_sizes q
  t ← or_fault (q.heap p) undefined
  require (not (mem (entry t p) q.timers))
  require (not (mem (active_timer t p) q.active_timers))
  let q' = record q {
    timers = PairSet.insert (entry t p) q.timers;
    active_timers = PairSet.insert (active_timer t p) q.active_timers;
  }
  check_sizes q'
  ok (is_earliest t.expiration q.timers, q')

unfoldable pub add_timer_in_loop : ℕ → TimerQueue → Result TimerQueue
add_timer_in_loop p q = do
  t ← or_fault (q.heap p) undefined
  (earliest_changed, q') ← insert p q
  ok (if earliest_changed then reset_timerfd t.expiration q' else q')

-- `p` is the address that `new` gives.
unfoldable pub add_timer : ℕ → ℕ → ℕ → ℕ → Bool → TimerQueue → Result TimerQueue
add_timer p callback when interval repeat q = add_timer_in_loop p (record q {
  heap =
      Table.insert ℕ_discrete p
        (record {
          callback = callback;
          expiration = when;
          interval = interval;
          repeat = repeat;
          sequence = suc q.num_created;
        })
        q.heap;
  num_created = suc q.num_created;
})

-- The timer of an id is erased from both sets and freed.
unfoldable pub erase_active : Pair → TimerQueue → Result TimerQueue
erase_active id q = do
  t ← or_fault (q.heap id.first) undefined
  require (mem (entry t id.first) q.timers)
  ok (record q {
    heap = Table.erase ℕ_discrete id.first q.heap;
    timers = erase (entry t id.first) q.timers;
    active_timers = erase id q.active_timers;
  })

unfoldable pub cancel_in_loop : Pair → TimerQueue → Result TimerQueue
cancel_in_loop id q = do
  check_sizes q
  q' ←
      if mem id q.active_timers
      then erase_active id q
      else if q.calling_expired_timers
      then ok (record q { canceling_timers = PairSet.insert id q.canceling_timers })
      else ok q
  check_sizes q'
  ok q'

-- The largest address, with which no timer stands.
abbrev pub uintptr_max : ℕ
uintptr_max = 2 ^ 64 - 1

-- The entries before and from the lower bound of a sentry on.
unfoldable pub before : Pair → List Pair → List Pair
before sentry [] = []
before sentry (x ∷ l) = let rest = before sentry l in if is_less x sentry then x ∷ rest else []

unfoldable pub from : Pair → List Pair → List Pair
from sentry [] = []
from sentry (x ∷ l) = let rest = from sentry l in if is_less x sentry then rest else x ∷ l

unfoldable pub erase_expired : List Pair → TimerQueue → Result TimerQueue
erase_expired [] q = ok q
erase_expired (x ∷ l) q = do
  t ← or_fault (q.heap x.second) undefined
  require (mem (active_timer t x.second) q.active_timers)
  erase_expired l (record q { active_timers = erase (active_timer t x.second) q.active_timers })

unfoldable pub get_expired : ℕ → TimerQueue → Result (List Pair × TimerQueue)
get_expired now q = do
  check_sizes q
  let expired = before (pair now uintptr_max) q.timers
  let rest = from (pair now uintptr_max) q.timers
  require (elim rest [ [] ↦ true | x ∷ l ↦ ltb now x.first ])
  q' ← erase_expired expired (record q { timers = rest })
  check_sizes q'
  ok (expired, q')

-- `Timer::restart`
unfoldable pub restart : ℕ → Timer → Timer
restart now t = record t { expiration = if t.repeat then now + t.interval else 0 }

unfoldable pub reset_one : ℕ → ℕ → TimerQueue → Result TimerQueue
reset_one now p q = do
  t ← or_fault (q.heap p) undefined
  (if t.repeat && not (mem (active_timer t p) q.canceling_timers)
      then (do
        (changed, q') ←
            insert p (record q { heap = Table.insert ℕ_discrete p (restart now t) q.heap })
        ok q')
      else ok (record q { heap = Table.erase ℕ_discrete p q.heap }))

unfoldable pub reset_all : ℕ → List Pair → TimerQueue → Result TimerQueue
reset_all now [] q = ok q
reset_all now (x ∷ l) q = do q' ← reset_one now x.second q; reset_all now l q'

-- The descriptor is set for the first timer, if its time is valid.
unfoldable pub arm_next : TimerQueue → Result TimerQueue
arm_next q = elim q.timers [
  | [] ↦ ok q
  | x ∷ l ↦ do
    t ← or_fault (q.heap x.second) undefined
    ok (if ltb 0 t.expiration then reset_timerfd t.expiration q else q)
]

unfoldable pub reset : List Pair → ℕ → TimerQueue → Result TimerQueue
reset expired now q = do q' ← reset_all now expired q; arm_next q'

-- What the code of a callback asks of the queue: an address, a callback, a time, an interval and
-- whether it repeats, or the id of the timer to cancel.
pub data Call : Type 0 where
  adds : ℕ → ℕ → ℕ → ℕ → Bool → Call
  cancels : Pair → Call

-- `new` never gives the memory of a timer that is alive, or the largest address.
unfoldable pub is_free : ℕ → TimerQueue → Bool
is_free p q = elim (q.heap p) [ none ↦ ltb p uintptr_max | some t ↦ false ]

unfoldable pub make : Call → TimerQueue → Result TimerQueue
make (adds p callback when interval repeat) q =
    if is_free p q then add_timer p callback when interval repeat q else ok q
make (cancels id) q = cancel_in_loop id q

unfoldable pub make_all : List Call → TimerQueue → Result TimerQueue
make_all [] q = ok q
make_all (c ∷ l) q = do q' ← make c q; make_all l q'

-- What a callback does, from the state of the queue when it is called.
abbrev pub Behaviour : Type 0
Behaviour = ℕ → TimerQueue → List Call

unfoldable pub run_expired : Behaviour → List Pair → TimerQueue → Result TimerQueue
run_expired behave [] q = ok q
run_expired behave (x ∷ l) q = do
  t ← or_fault (q.heap x.second) undefined
  q' ← make_all (behave t.callback q) q
  run_expired behave l q'

unfoldable pub handle_read : Behaviour → ℕ → TimerQueue → Result TimerQueue
handle_read behave now q = do
  (expired, q₁) ← get_expired now (record q { armed = none })
  q₂ ←
      run_expired behave expired
        (record q₁ { calling_expired_timers = true; canceling_timers = [] })
  reset expired now (record q₂ { calling_expired_timers = false })

-- What happens to the queue of a loop.
pub data Event : Type 0 where
  calls : Call → Event
  fires : ℕ → Event

unfoldable pub run : Behaviour → List Event → TimerQueue → Result TimerQueue
run behave [] q = ok q
run behave (calls c ∷ l) q = do q' ← make c q; run behave l q'
run behave (fires now ∷ l) q = do q' ← handle_read behave now q; run behave l q'
