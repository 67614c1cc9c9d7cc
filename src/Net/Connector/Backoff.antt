-- ===== src/Net/Connector/Backoff.antt =====
-- The delays between attempts, and the timer that outlives a restart.
use native.Mathlib.Nat.{pow-suc}
use pp_d_scache.Base.{
  ℕ, zero, suc, ◌*◌, ◌^◌, ◌≤◌, ◌≡◌, refl, true, List, [], ◌∷◌, none, some, arith, min, ok, err,
  undefined, Result-cases, inl, inr,
}
use pp_d_scache.Net.Connector.{
  Connector, Effect, opened, closed, run_after, Errno, success, connecting, init, retry, restart,
  start_in_loop, start, stop, stop_in_loop, reset_channel, handle_error, handle_write,
  max_retry_delay_ms, init_retry_delay_ms, connecting_to, handle_errno, try_connect,
  remove_and_reset_channel,
}
use pp_d_scache.Net.Channel
use pp_d_scache.Net.Connector.Account.{Event, System, happen, run}

-- `n` attempts that fail one after another, each with its socket.
abbrev pub retries : ℕ → (ℕ → ℕ) → Connector → Connector
retries zero fd c = c
retries (suc n) fd c = retry (fd n) (retries n fd c)

-- After `n` failures in a row the next delay is half a second doubled `n` times, or half a minute
-- where that is less.
retries_delay :
    (n : ℕ) (fd : ℕ → ℕ) (c : Connector)
    → c.connect ≡ true
    → c.retry_delay_ms ≡ init_retry_delay_ms
    → ((retries n fd c).connect ≡ true)
      × ((retries n fd c).retry_delay_ms ≡ min (init_retry_delay_ms * 2 ^ n) max_retry_delay_ms)
unfolding retry
retries_delay zero fd c on e = (on, omega (arith, e))
retries_delay (suc n) fd c on e =
    let (still, d) = retries_delay n fd c on e in
    (ground (arith, still), ground (arith, still, d, pow-suc 2 n))

-- The delays that were queued lie between half a second and half a minute.
abbrev pub Delays : List Effect → Type 0
Delays [] = Unit
Delays (run_after d ∷ l) = (init_retry_delay_ms ≤ d) × (d ≤ max_retry_delay_ms) × Delays l
Delays (_ ∷ l) = Delays l

record IsPatient (s : System) : Type 0 where
  low : init_retry_delay_ms ≤ s.connector.retry_delay_ms
  high : s.connector.retry_delay_ms ≤ max_retry_delay_ms
  delays : Delays s.connector.effects

happen-IsPatient : (e : Event) (s t : System) → IsPatient s → happen e s ≡ ok t → IsPatient t
unfolding happen start stop restart start_in_loop stop_in_loop reset_channel handle_error
    handle_write retry remove_and_reset_channel Channel.remove connecting_to handle_errno
    try_connect
happen-IsPatient e s t v h = record {
  low = ground arith;
  high = ground arith;
  delays = ground (arith, v.delays);
}

run-IsPatient : (l : List Event) (s t : System) → IsPatient s → run l s ≡ ok t → IsPatient t
unfolding run
run-IsPatient [] s t v h = rw (let e : s ≡ t = cc in e) at v
run-IsPatient (e ∷ l) s t v h = elim (Result-cases (happen e s)) [
  | inl (r, f) ↦ run-IsPatient l r t (happen-IsPatient e s r v f) (rw f at h)
  | inr (x, f) ↦ absurd (ground (arith, rw f at h))
]

-- In any history that passes the assertions, every delay before a new attempt lies between half a
-- second and half a minute.
pub run-Delays :
    (l : List Event) (t : System)
    → run l (record { connector = init; ran = 0 }) ≡ ok t
    → Delays t.connector.effects
unfolding init
run-Delays l t h =
    (run-IsPatient l (record { connector = init; ran = 0 }) t
      (record { low = omega arith; high = omega arith; delays = tt }) h).delays

-- Where a connector that has no channel and may connect is restarted after a failed attempt and before
-- its timer fires, and the new attempt goes on, then all that happens is that the socket is closed,
-- the timer set and a new socket opened: nothing cancels the timer, whose `startInLoop` fails its
-- assertion.
pub timer_after_restart :
    (fd i j : ℕ) (e : Errno) (c : Connector)
    → c.connect ≡ true
    → c.channel ≡ none
    → (d : Connector) × (restart i success (retry fd c) ≡ ok d)
      × (d.effects ≡ opened i ∷ run_after c.retry_delay_ms ∷ closed fd ∷ c.effects)
      × (d.channel ≡ some (i, Channel.enable_writing Channel.init))
      × (start_in_loop j e d ≡ err undefined)
unfolding restart retry start_in_loop try_connect handle_errno connecting_to
timer_after_restart fd i j e c on free = (
  record c {
    connect = true;
    state = connecting;
    channel = some (i, Channel.enable_writing Channel.init);
    retry_delay_ms = init_retry_delay_ms;
    effects = opened i ∷ run_after c.retry_delay_ms ∷ closed fd ∷ c.effects;
  },
  ground arith,
  refl,
  refl,
  refl,
)
