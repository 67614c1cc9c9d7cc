-- ===== src/Net/TimerQueue/Firing.antt =====
-- `handleRead` and whole histories of a queue pass every assertion, whatever the callbacks do.
use pp_d_scache.Base.{
  ℕ, ◌+◌, ◌-◌, ◌*◌, max, ◌<◌, ◌≡◌, refl, ◌∙◌, inl, inr, Bool, true, false, List, [], ◌∷◌, Option,
  subst, not, ◌&&◌, ◌||◌, none, some, ltb, leb, ok, arith, Bool-cases,
}
use pp_d_scache.Base.PairSet.{Pair, mem}
use pp_d_scache.Net.TimerQueue.{
  Timer, TimerQueue, entry, active_timer, restart, pair, uintptr_max, init, from, get_expired,
  arm_next, reset, reset_timerfd, Behaviour, run_expired, handle_read, how_much_time_from_now,
  Event, calls, fires, run,
}
use pp_d_scache.Net.TimerQueue.Sync.{IsSynced}
use pp_d_scache.Net.TimerQueue.Adding.{IsSynced-flags, make-IsSynced, make_all-IsSynced}
use pp_d_scache.Net.TimerQueue.Expiry.{has_address, get_expired-due}
use pp_d_scache.Net.TimerQueue.Resetting.{reset_all-Resets}
use pp_d_scache.Net.TimerQueue.Noting.{has_cancel, calls_made, run_expired-Notes}

-- The descriptor is set for the first entry, unless its time is 0.
abbrev pub IsArmed : List Pair → Option ℕ → Type 0
IsArmed [] armed = Unit {0}
IsArmed (x ∷ l) armed = ltb 0 x.first ≡ true → armed ≡ some x.first

arm_next-IsArmed :
    (q : TimerQueue)
    → IsSynced (λ p. false) q
    → (armed : Option ℕ) × (arm_next q ≡ ok (record q { armed = armed })) × IsArmed q.timers armed
unfolding arm_next reset_timerfd mem
arm_next-IsArmed q v = go q.timers refl
  where
    go :
        (l : List Pair)
        → q.timers ≡ l
        → (armed : Option ℕ) × (arm_next q ≡ ok (record q { armed = armed }))
          × IsArmed q.timers armed
    go [] e = (q.armed, rw e refl, rw e tt)
    go (x ∷ l) e =
        let (t, f, n, a) = v.forward x.first x.second (rw e (ground arith)) in
        elim (Bool-cases (ltb 0 x.first)) [
          | inl valid ↦ (some x.first, rw (e, f, n, valid) refl, rw e (λ h. refl))
          | inr zero' ↦ (q.armed, rw (e, f, n, zero') refl, rw e (λ h. absurd (ground (arith, h))))
        ]

run_expired-IsSynced :
    (behave : Behaviour) (aside : ℕ → Bool) (l : List Pair) (q : TimerQueue)
    → IsSynced aside q
    → ((p : ℕ) → has_address l p ≡ true → aside p ≡ true)
    → (r : TimerQueue) × (run_expired behave l q ≡ ok r) × IsSynced aside r
unfolding run_expired
run_expired-IsSynced behave aside [] q v sub = (q, refl, v)
run_expired-IsSynced behave aside (x ∷ l) q v sub =
    let (t, f, a) = v.kept x.second (sub x.second (ground arith)) in
    let (r, e, w) = make_all-IsSynced aside (behave t.callback q) q v in
    let (s, e', z) = run_expired-IsSynced behave aside l r w (λ p h. sub p (ground (arith, h))) in
    (s, rw (f, e) e', z)

mem-has_address : (w p : ℕ) (l : List Pair) → mem (pair w p) l ≡ true → has_address l p ≡ true
unfolding mem
mem-has_address w p [] h = absurd (ground (arith, h))
mem-has_address w p (x ∷ l) h = elim (Bool-cases (mem (pair w p) l)) [
  | inl there ↦ ground (arith, mem-has_address w p l there)
  | inr out ↦ ground (arith, h, out)
]

-- The timer at `p`, which has fired, is started again, and waits for its new time, or is gone.
abbrev pub Ends : ℕ → Bool → Timer → ℕ → TimerQueue → Type 0
Ends now cancelled t p r =
    ((t.repeat && not cancelled) ≡ true
      → (r.heap p ≡ some (restart now t)) × (mem (entry (restart now t) p) r.timers ≡ true))
    × ((t.repeat && not cancelled) ≡ false → r.heap p ≡ none)

-- What `handleRead` makes of a queue: `taken` is the queue without the entries that are due, `called`
-- the one after the callbacks, and `r` the last one.
abbrev pub Fires : Behaviour → ℕ → TimerQueue → Type 0
Fires behave now q =
    (expired : List Pair) × (taken called r : TimerQueue) × (get_expired now
        (record q { armed = none })
      ≡ ok (expired, taken))
    × (run_expired behave expired
          (record taken { calling_expired_timers = true; canceling_timers = [] })
        ≡ ok called)
    × (handle_read behave now q ≡ ok r)
    × IsSynced (λ p. false) r
    × ((w p : ℕ)
        → mem (pair w p) q.timers ≡ true
        → leb w now ≡ true
        → (t : Timer) × (q.heap p ≡ some t)
          × Ends now
              (has_cancel (active_timer t p) (
                calls_made behave expired
                  (record taken { calling_expired_timers = true; canceling_timers = [] })))
              t p r)
    × IsArmed r.timers r.armed

or_false : (b : Bool) → (b || false) ≡ b
or_false b = ground arith

pub handle_read-Outcome :
    (behave : Behaviour) (now : ℕ) (q : TimerQueue) → IsSynced (λ p. false) q → Fires behave now q
unfolding handle_read reset mem
handle_read-Outcome behave now q v =
    let v₀ = IsSynced-flags (λ p. false) q q.calling_expired_timers q.canceling_timers none v in
    let (expired, active, e, due, late, apart, v₁) =
      get_expired-due now (record q { armed = none }) v₀ in
    let q₁ = record q {
      armed = none;
      timers = from (pair now uintptr_max) q.timers;
      active_timers = active;
    } in
    let start = record q₁ { calling_expired_timers = true; canceling_timers = [] } in
    let (q₂, e', v₂) =
      run_expired-IsSynced behave (has_address expired) expired
        (record q₁ { calling_expired_timers = true; canceling_timers = [] })
        (IsSynced-flags (has_address expired) q₁ true [] none v₁) (λ p h. h) in
    let idle = record q₂ { calling_expired_timers = false } in
    let (q₃, e₃, v₃, outcome, agree) =
      reset_all-Resets now expired idle apart
        (IsSynced-flags (has_address expired) q₂ false q₂.canceling_timers q₂.armed v₂) in
    let (armed, e₄, is_armed) = arm_next-IsArmed q₃ v₃ in
    (
      expired,
      q₁,
      q₂,
      record q₃ { armed = armed },
      e,
      e',
      rw (e, e', e₃, e₄) refl,
      IsSynced-flags (λ p. false) q₃ q₃.calling_expired_timers q₃.canceling_timers armed v₃,
      (λ w p h d.
          let here = mem-has_address w p expired (due w p ∙ ground (arith, h, d)) in
          let (t, f, a) = v₁.kept p here in
          let n =
            run_expired-Notes (has_address expired) p t here behave expired start q₂
              (IsSynced-flags (has_address expired) q₁ true [] none v₁) (λ i g. g) f refl e' in
          (
            t,
            f,
            subst (λ b. Ends now b t p (record q₃ { armed = armed }))
                (n.noted
                  ∙ or_false (has_cancel (active_timer t p) (calls_made behave expired start)))
                (outcome p t here n.alive),
          )),
      is_armed,
    )

init-IsSynced : IsSynced (λ p. false) init
unfolding init mem
init-IsSynced = record {
  sorted = tt;
  active_sorted = tt;
  sizes = refl;
  forward = λ w p h. absurd (ground (arith, h));
  backward = λ p s h. absurd (ground (arith, h));
  kept = λ p h. absurd (ground (arith, h));
  known = λ p t h. absurd (ground (arith, h));
}

run-from :
    (behave : Behaviour) (l : List Event) (q : TimerQueue)
    → IsSynced (λ p. false) q
    → (r : TimerQueue) × (run behave l q ≡ ok r) × IsSynced (λ p. false) r
unfolding run
run-from behave [] q v = (q, refl, v)
run-from behave (calls c ∷ l) q v =
    let (r, e, w) = make-IsSynced (λ p. false) c q v in
    let (s, f, z) = run-from behave l r w in (s, rw e f, z)
run-from behave (fires now ∷ l) q v =
    let (expired, taken, called, r, e₁, e₂, e, w, outcome, armed) =
      handle_read-Outcome behave now q v in
    let (s, f, z) = run-from behave l r w in (s, rw e f, z)

-- In every history of a queue, no assertion fails and no timer is read after it was freed, whatever
-- the callbacks add and cancel, and both sets and the memory agree at the end.
pub run-IsSynced :
    (behave : Behaviour) (l : List Event)
    → (r : TimerQueue) × (run behave l init ≡ ok r) × IsSynced (λ p. false) r
run-IsSynced behave l = run-from behave l init init-IsSynced

-- The timer descriptor is set for 100 microseconds or the time that is left, whichever is more, with
-- fewer than 10⁹ nanoseconds.
pub how_much_time_from_now_lem :
    (when now : ℕ)
    → ((how_much_time_from_now when now).1 < 1000000000)
      × ((how_much_time_from_now when now).0 * 1000000000 + (how_much_time_from_now when now).1
          ≡ max 100 (when - now) * 1000)
unfolding how_much_time_from_now
how_much_time_from_now_lem when now = (ground arith, ground arith)
