-- ===== src/Net/Connector/Account.antt =====
-- Every socket that the connector opens is closed once or handed over once.
use pp_d_scache.Base.{
  ℕ, suc, ◌+◌, ◌≡◌, refl, inl, inr, Bool, true, false, List, [], ◌∷◌, Option, none, some, arith,
  not, Bool-cases, err, ltb, ◌==◌, if◌then◌else◌, Result, ok, ◌>>=◌, Result-cases,
}
use pp_d_scache.Net.Channel.{Channel}
use pp_d_scache.Net.Channel
use pp_d_scache.Net.Connector.{
  Connector, States, connecting, Effect, opened, closed, new_connection, queued_reset, Errno, init,
  is_connecting, connecting_to, retry, handle_errno, try_connect, start_in_loop, start, stop,
  remove_and_reset_channel, reset_channel, stop_in_loop, restart, handle_write, handle_error,
}

-- A sum over the history.
abbrev pub total : (Effect → ℕ) → List Effect → ℕ
total f [] = 0
total f (e ∷ l) = f e + total f l

abbrev pub one_if : Bool → ℕ
one_if true = 1
one_if false = 0

-- How often the socket `fd` is opened, and how often it is closed or handed over.
abbrev pub opens : ℕ → Effect → ℕ
opens fd (opened i) = one_if (i == fd)
opens fd _ = 0

abbrev pub settles : ℕ → Effect → ℕ
settles fd (closed i) = one_if (i == fd)
settles fd (new_connection i) = one_if (i == fd)
settles fd _ = 0

abbrev pub resets : Effect → ℕ
resets queued_reset = 1
resets _ = 0

-- The socket of a connection attempt that goes on.
abbrev pub held : ℕ → States → Option (ℕ × Channel) → ℕ
held fd connecting (some (i, ch)) = one_if (i == fd)
held fd _ _ = 0

-- A channel that waits for its reset.
abbrev waits : States → Option (ℕ × Channel) → ℕ
waits connecting _ = 0
waits _ none = 0
waits _ (some _) = 1

abbrev is_some : Option (ℕ × Channel) → Bool
is_some none = false
is_some (some _) = true

-- What happens to a connector, with what the socket calls answer.
pub data Event : Type 0 where
  starts restarts timer_fires : ℕ → Errno → Event
  stops runs_stop runs_reset errors : Event
  becomes_writable : Bool → Bool → Event

-- The connector, and how many of the queued resets have run.
pub record System : Type 0 where
  pub connector : Connector
  pub ran : ℕ

abbrev keep_ran : ℕ → Result Connector → Result System
keep_ran ran r = do c ← r; ok (record { connector = c; ran = ran })

-- A reset runs only if one is queued.
unfoldable pub happen : Event → System → Result System
happen (starts fd e) s = keep_ran s.ran (start fd e s.connector)
happen (restarts fd e) s = keep_ran s.ran (restart fd e s.connector)
happen (timer_fires fd e) s = keep_ran s.ran (start_in_loop fd e s.connector)
happen stops s = ok (record s { connector = stop s.connector })
happen runs_stop s = keep_ran s.ran (stop_in_loop s.connector)
happen runs_reset s =
    if ltb s.ran (total resets s.connector.effects)
    then ok (record { connector = reset_channel s.connector; ran = suc s.ran })
    else ok s
happen errors s = keep_ran s.ran (handle_error s.connector)
happen (becomes_writable failed self) s = keep_ran s.ran (handle_write failed self s.connector)

unfoldable pub run : List Event → System → Result System
run [] s = ok s
run (e ∷ l) s = do t ← happen e s; run l t

-- `restart` is not called while an attempt goes on.
abbrev pub is_calm : Event → System → Bool
is_calm (restarts fd e) s = not (is_connecting s.connector.state)
is_calm _ s = true

unfoldable pub all_calm : List Event → System → Bool
all_calm [] s = true
all_calm (e ∷ l) s =
    if is_calm e s then elim (happen e s) [ ok t ↦ all_calm l t | err x ↦ true ] else false

record IsBalanced (fd : ℕ) (s : System) : Type 0 where
  balanced :
      total (opens fd) s.connector.effects
      ≡ total (settles fd) s.connector.effects + held fd s.connector.state s.connector.channel
  there : is_connecting s.connector.state ≡ true → is_some s.connector.channel ≡ true
  pending : total resets s.connector.effects ≡ s.ran + waits s.connector.state s.connector.channel

happen-IsBalanced :
    (fd : ℕ) (e : Event) (s t : System)
    → is_calm e s ≡ true
    → IsBalanced fd s
    → happen e s ≡ ok t
    → IsBalanced fd t
unfolding happen start stop restart start_in_loop stop_in_loop reset_channel handle_error
    handle_write retry remove_and_reset_channel Channel.remove connecting_to handle_errno
    try_connect
happen-IsBalanced fd (starts i e) s t k v h = record {
  balanced = ground (arith, v.balanced);
  there = ground (arith, v.there);
  pending = ground (arith, v.pending);
}
happen-IsBalanced fd (restarts i e) s t k v h = record {
  balanced = ground (arith, k, v.balanced);
  there = ground (arith, k, v.there);
  pending = ground (arith, k, v.pending);
}
happen-IsBalanced fd (timer_fires i e) s t k v h = record {
  balanced = ground (arith, v.balanced);
  there = ground (arith, v.there);
  pending = ground (arith, v.pending);
}
happen-IsBalanced fd stops s t k v h = record {
  balanced = ground (arith, v.balanced);
  there = ground (arith, v.there);
  pending = ground (arith, v.pending);
}
happen-IsBalanced fd runs_stop s t k v h = record {
  balanced = ground (arith, v.balanced);
  there = ground (arith, v.there);
  pending = ground (arith, v.pending);
}
happen-IsBalanced fd runs_reset s t k v h = record {
  balanced = ground (arith, v.balanced);
  there = ground (arith, v.there);
  pending = ground (arith, v.pending);
}
happen-IsBalanced fd errors s t k v h = record {
  balanced = ground (arith, v.balanced);
  there = ground (arith, v.there);
  pending = ground (arith, v.pending);
}
happen-IsBalanced fd (becomes_writable a b) s t k v h = record {
  balanced = ground (arith, v.balanced);
  there = ground (arith, v.there);
  pending = ground (arith, v.pending);
}

run-IsBalanced :
    (fd : ℕ) (l : List Event) (s t : System)
    → all_calm l s ≡ true
    → IsBalanced fd s
    → run l s ≡ ok t
    → IsBalanced fd t
unfolding run all_calm
run-IsBalanced fd [] s t k v h = rw (let e : s ≡ t = cc in e) at v
run-IsBalanced fd (e ∷ l) s t k v h = elim (Bool-cases (is_calm e s)) [
  | inr not_calm ↦ absurd (ground (arith, rw not_calm at k))
  | inl calm ↦ elim (Result-cases (happen e s)) [
    | inl (r, f) ↦
        run-IsBalanced fd l r t (rw (calm, f) at k) (happen-IsBalanced fd e s r calm v f)
          (rw f at h)
    | inr (x, f) ↦ absurd (ground (arith, rw f at h))
  ]
]

-- In any history that passes the assertions and in which `restart` is not called while an attempt
-- goes on, each socket is opened as often as it is closed or handed
-- over, but for the one whose attempt goes on: none leaks, and none is closed or handed over twice.
pub run-balanced :
    (fd : ℕ) (l : List Event) (t : System)
    → all_calm l (record { connector = init; ran = 0 }) ≡ true
    → run l (record { connector = init; ran = 0 }) ≡ ok t
    → total (opens fd) t.connector.effects
      ≡ total (settles fd) t.connector.effects + held fd t.connector.state t.connector.channel
unfolding init
run-balanced fd l t k h =
    (run-IsBalanced fd l (record { connector = init; ran = 0 }) t k
      (record { balanced = refl; there = λ e. cc; pending = refl }) h).balanced
