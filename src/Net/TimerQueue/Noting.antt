-- ===== src/Net/TimerQueue/Noting.antt =====
-- What the callbacks of a round cancel is noted, also of timers that have fired themselves.
use pp_d_scache.Base.{
  ℕ, ◌≡◌, refl, ap, subst, ◌∙◌, inl, inr, Bool, true, false, ◌||◌, List, [], ◌∷◌, ◌++◌, none, some,
  ◌==◌, ok, err, arith, Bool-cases,
}
use pp_d_scache.Base.PairSet.{Pair, mem, is_same, mem-insert}
use pp_d_scache.Net.TimerQueue.{
  Timer, TimerQueue, active_timer, insert, add_timer_in_loop, add_timer, reset_timerfd,
  cancel_in_loop, erase_active, Call, adds, cancels, is_free, make, make_all, Behaviour,
  run_expired,
}
use pp_d_scache.Net.TimerQueue.Sync.{IsSynced}
use pp_d_scache.Net.TimerQueue.Canceling.{kept-apart}
use pp_d_scache.Net.TimerQueue.Adding.{make-IsSynced, make_all-IsSynced}
use pp_d_scache.Net.TimerQueue.Expiry.{has_address}

-- Whether calls cancel the timer of an id.
abbrev pub is_cancel : Pair → Call → Bool
is_cancel id (adds p callback when interval repeat) = false
is_cancel id (cancels other) = is_same id other

unfoldable pub has_cancel : Pair → List Call → Bool
has_cancel id [] = false
has_cancel id (c ∷ l) = is_cancel id c || has_cancel id l

-- All calls that the callbacks of a round make, one callback after another.
unfoldable pub calls_made : Behaviour → List Pair → TimerQueue → List Call
calls_made behave [] q = []
calls_made behave (x ∷ l) q = elim (q.heap x.second) [
  | none ↦ []
  | some t ↦
      behave t.callback q
      ++ elim (make_all (behave t.callback q) q) [ ok r ↦ calls_made behave l r | err e ↦ [] ]
]

calls_made-step :
    (behave : Behaviour) (x : Pair) (l : List Pair) (q r : TimerQueue) (t : Timer)
    → q.heap x.second ≡ some t
    → make_all (behave t.callback q) q ≡ ok r
    → calls_made behave (x ∷ l) q ≡ behave t.callback q ++ calls_made behave l r
unfolding calls_made
calls_made-step behave x l q r t f e = rw (f, calls_made, e) refl

has_cancel-append :
    (id : Pair) (l m : List Call) → has_cancel id (l ++ m) ≡ (has_cancel id l || has_cancel id m)
unfolding has_cancel
has_cancel-append id [] m = refl
has_cancel-append id (c ∷ l) m = ground (arith, has_cancel-append id l m)

-- The timer at `p`, which has fired, is still there, and its cancellations are noted.
pub record Notes (t : Timer) (p : ℕ) (cancelled : Bool) (q r : TimerQueue) : Type 0 where
  pub alive : r.heap p ≡ some t
  pub calling : r.calling_expired_timers ≡ true
  pub noted :
      mem (active_timer t p) r.canceling_timers
      ≡ (cancelled || mem (active_timer t p) q.canceling_timers)

module _ (aside : ℕ → Bool) (p : ℕ) (t : Timer) (here : aside p ≡ true) where
  make-Notes :
      (c : Call) (q r : TimerQueue)
      → IsSynced aside q
      → q.heap p ≡ some t
      → q.calling_expired_timers ≡ true
      → make c q ≡ ok r
      → Notes t p (is_cancel (active_timer t p) c) q r
  unfolding make is_free add_timer add_timer_in_loop insert reset_timerfd cancel_in_loop
      erase_active
  make-Notes (adds i callback when interval repeat) q r v found on h = record {
    alive = ground (arith, h);
    calling = ground (arith, h);
    noted = ground (arith, h);
  }
  make-Notes (cancels id) q r v found on h = elim (Bool-cases (mem id q.active_timers)) [
    | inl there ↦
        let (u, f, e, a) = v.backward id.first id.second there in
        let same : active_timer u id.first ≡ id =
          ap (λ s. record { first = id.first; second = s }) e in
        let apart : (p == id.first) ≡ false =
          kept-apart aside q v p id.first u f (rw same there) here in
        record {
          alive = ground (arith, h, there, apart);
          calling = ground (arith, h, there);
          noted = ground (arith, h, there, apart);
        }
    | inr out ↦ record {
      alive = ground (arith, h, out);
      calling = ground (arith, h, out);
      noted = ground (arith, h, out, mem-insert (active_timer t p) id q.canceling_timers);
    }
  ]

  make_all-Notes :
      (l : List Call) (q r : TimerQueue)
      → IsSynced aside q
      → q.heap p ≡ some t
      → q.calling_expired_timers ≡ true
      → make_all l q ≡ ok r
      → Notes t p (has_cancel (active_timer t p) l) q r
  unfolding make_all has_cancel
  make_all-Notes [] q r v found on h =
      subst (Notes t p false q) (let e : q ≡ r = cc in e)
        (record { alive = found; calling = on; noted = refl })
  make_all-Notes (c ∷ l) q r v found on h =
      let (m, e, w) = make-IsSynced aside c q v in
      let n = make-Notes c q m v found on e in
      let k = make_all-Notes l m r w n.alive n.calling (rw e at h) in
      record { alive = k.alive; calling = k.calling; noted = ground (arith, k.noted, n.noted) }

  pub run_expired-Notes :
      (behave : Behaviour) (l : List Pair) (q r : TimerQueue)
      → IsSynced aside q
      → ((i : ℕ) → has_address l i ≡ true → aside i ≡ true)
      → q.heap p ≡ some t
      → q.calling_expired_timers ≡ true
      → run_expired behave l q ≡ ok r
      → Notes t p (has_cancel (active_timer t p) (calls_made behave l q)) q r
  unfolding run_expired calls_made has_cancel
  run_expired-Notes behave [] q r v sub found on h =
      subst (Notes t p false q) (let e : q ≡ r = cc in e)
        (record { alive = found; calling = on; noted = refl })
  run_expired-Notes behave (x ∷ l) q r v sub found on h =
      let (u, f, a) = v.kept x.second (sub x.second (ground arith)) in
      let (m, e, w) = make_all-IsSynced aside (behave u.callback q) q v in
      let n = make_all-Notes (behave u.callback q) q m v found on e in
      let k =
        run_expired-Notes behave l m r w (λ i g. sub i (ground (arith, g))) n.alive n.calling
          (rw (f, e) at h) in
      let joined =
        ap (has_cancel (active_timer t p)) (calls_made-step behave x l q m u f e)
        ∙ has_cancel-append (active_timer t p) (behave u.callback q) (calls_made behave l m) in
      rw joined
        (record { alive = k.alive; calling = k.calling; noted = ground (arith, k.noted, n.noted) })
