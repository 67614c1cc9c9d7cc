-- ===== src/Net/EventLoop/Wakeups.antt =====
-- No wakeup of the loop is lost, and each functor runs once, in the order of the queue.
use pp_d_scache.Base.{
  ℕ, ◌+◌, ◌≡◌, ◌<◌, refl, ap, subst, Bool-cases, ◌∙◌, sym, inl, inr, Bool, true, false, not, ◌||◌,
  if◌then◌else◌, err, List, [], ◌∷◌, ◌++◌, ltb, ok, Result-cases, arith,
}
use mathlib.Core.List.{append_assoc, append-nil}
use pp_d_scache.Net.EventLoop.{
  EventLoop, Phase, outside, testing, polling, handling, calling, init, is_looping,
  is_calling_pending_functors, wakeup, handle_read, queue_in_loop, call_quit, start, test_quit,
  poll, swap_functors, call_functor, go_on, is_running, happen, run, Event, starts, reads_wakeup,
  own_quits, quits, wakes, goes_on, own_queues, queues,
}

abbrev pub is_empty : List ℕ → Bool
is_empty [] = true
is_empty (x ∷ l) = false

-- Whether something waits for the loop in a phase: functors, and a call of `quit` where the test of it
-- is over.
abbrev pub waits : Phase → Bool → List ℕ → Bool
waits outside quit pending = not (is_empty pending)
waits testing quit pending = not (is_empty pending)
waits polling quit pending = quit || not (is_empty pending)
waits handling quit pending = false
waits calling quit pending = not (is_empty pending)

-- Where something waits, the descriptor can be read or a thread is about to write to it.
abbrev pub IsAwake : EventLoop → Type 0
IsAwake l = waits l.phase l.quit l.pending_functors ≡ true → 0 < l.wakeups + l.waking

-- The loop's own thread queues nothing while it is not in `loop`.
abbrev pub is_inside : Event → EventLoop → Bool
is_inside (own_queues cb) l = is_looping l.phase
is_inside _ l = true

unfoldable pub all_inside : List Event → EventLoop → Bool
all_inside [] l = true
all_inside (e ∷ es) l =
    if is_inside e l then elim (happen e l) [ ok m ↦ all_inside es m | err x ↦ true ] else false

happen-IsAwake :
    (e : Event) (l r : EventLoop) → is_inside e l ≡ true → IsAwake l → happen e l ≡ ok r → IsAwake r
unfolding happen start go_on test_quit poll swap_functors call_functor handle_read call_quit
    queue_in_loop wakeup
happen-IsAwake starts l r k a h = ground (arith, a)
happen-IsAwake reads_wakeup l r k a h = ground (arith, a)
happen-IsAwake own_quits l r k a h = ground (arith, a)
happen-IsAwake quits l r k a h = ground (arith, a)
happen-IsAwake wakes l r k a h = ground (arith, a)
happen-IsAwake (goes_on other) l r k a h = ground (arith, a)
happen-IsAwake (own_queues cb) l r k a h = ground (arith, k, a)
happen-IsAwake (queues cb) l r k a h = ground (arith, a)

run-IsAwake :
    (es : List Event) (l r : EventLoop)
    → all_inside es l ≡ true
    → IsAwake l
    → run es l ≡ ok r
    → IsAwake r
unfolding run all_inside
run-IsAwake [] l r k a h = rw (let e : l ≡ r = cc in e) at a
run-IsAwake (e ∷ es) l r k a h = elim (Bool-cases (is_inside e l)) [
  | inr outside' ↦ absurd (ground (arith, rw outside' at k))
  | inl inside ↦ elim (Result-cases (happen e l)) [
    | inl (m, f) ↦
        run-IsAwake es m r (rw (inside, f) at k) (happen-IsAwake e l m inside a f) (rw f at h)
    | inr (x, f) ↦ absurd (ground (arith, rw f at h))
  ]
]

-- In every history of a loop whose own thread queues no functor while it is not in `loop`, whatever
-- other threads do between the loop's steps: where it stands before `poll` while functors are pending or `quit_` is set, the wakeup descriptor can be read, or a thread
-- is about to write to it, so that the loop does not sleep over them.
pub run_awake :
    (es : List Event) (r : EventLoop)
    → all_inside es init ≡ true
    → run es init ≡ ok r
    → r.phase ≡ polling
    → (r.quit || not (is_empty r.pending_functors)) ≡ true
    → 0 < r.wakeups + r.waking
unfolding init
run_awake es r k h p w = run-IsAwake es init r k (λ e. absurd (ground (arith, e))) h (rw p w)

-- The functors that were queued are those that ran, those that `doPendingFunctors` has taken and
-- those that are pending, in this order.
abbrev pub IsOrdered : EventLoop → Type 0
IsOrdered l =
    (l.queued ≡ l.ran ++ l.functors ++ l.pending_functors)
    × (is_calling_pending_functors l.phase ≡ false → l.functors ≡ [])

pushed : (q a b c : List ℕ) (x : ℕ) → q ≡ a ++ b ++ c → q ++ (x ∷ []) ≡ a ++ b ++ (c ++ (x ∷ []))
pushed q a b c x h = ap (λ l. l ++ (x ∷ [])) h ∙ append_assoc (a ++ b) c (x ∷ [])

queue-IsOrdered :
    (in_loop : Bool) (cb : ℕ) (l : EventLoop) → IsOrdered l → IsOrdered (queue_in_loop in_loop cb l)
unfolding queue_in_loop wakeup
queue-IsOrdered in_loop cb l v = elim (Bool-cases in_loop) [
  | inr other ↦
      (rw other (pushed l.queued l.ran l.functors l.pending_functors cb v.0), rw other v.1)
  | inl own ↦ elim (Bool-cases (is_calling_pending_functors l.phase)) [
    | inl busy ↦ (
      rw (own, busy) (pushed l.queued l.ran l.functors l.pending_functors cb v.0),
      rw (own, busy) (λ e. absurd (ground (arith, e))),
    )
    | inr free ↦ (
      rw (own, free) (pushed l.queued l.ran l.functors l.pending_functors cb v.0),
      rw (own, free) (λ e. v.1 free),
    )
  ]
]

go_on-IsOrdered : (other : Bool) (l : EventLoop) → IsOrdered l → IsOrdered (go_on other l)
unfolding go_on test_quit poll swap_functors call_functor
go_on-IsOrdered other l v = go l.phase l.functors refl refl
  where
    go : (p : Phase) (fs : List ℕ) → l.phase ≡ p → l.functors ≡ fs → IsOrdered (go_on other l)
    go outside fs e f = rw e (v.0, λ h. v.1 (rw e refl))
    go testing fs e f = rw e (v.0, λ h. v.1 (rw e refl))
    go polling fs e f = elim (Bool-cases (other || ltb 0 l.wakeups)) [
      | inl ready ↦ rw (e, ready) (v.0, λ h. v.1 (rw e refl))
      | inr blocked ↦ rw (e, blocked) (v.0, λ h. v.1 (rw e refl))
    ]
    go handling fs e f =
        let none' : l.functors ≡ [] = v.1 (rw e refl) in
        rw e (
          v.0
              ∙ ap (λ x. l.ran ++ x ++ l.pending_functors) none'
              ∙ ap (λ x. x ++ l.pending_functors) (append-nil l.ran)
              ∙ sym (append-nil (l.ran ++ l.pending_functors)),
          λ h. absurd (ground (arith, h)),
        )
    go calling [] e f = rw (e, f) (v.0 ∙ ap (λ x. l.ran ++ x ++ l.pending_functors) f, λ h. refl)
    go calling (x ∷ fs) e f =
        rw (e, f)
          (
            v.0
                ∙ ap (λ y. l.ran ++ y ++ l.pending_functors) f
                ∙ ap (λ y. y ++ l.pending_functors) (sym (append_assoc l.ran (x ∷ []) fs)),
            λ h. absurd (ground (arith, h)),
          )

happen-IsOrdered : (e : Event) (l r : EventLoop) → IsOrdered l → happen e l ≡ ok r → IsOrdered r
unfolding happen start handle_read call_quit wakeup
happen-IsOrdered starts l r v h = elim (Bool-cases (is_looping l.phase)) [
  | inl on ↦ absurd (ground (arith, rw on at h))
  | inr off ↦
      subst IsOrdered
        (let e : record l { phase = testing; quit = false } ≡ r = ground (arith, rw off at h) in e)
        (v.0, λ e. v.1 (ground (arith, off)))
]
happen-IsOrdered reads_wakeup l r v h = (ground (arith, v), ground (arith, v))
happen-IsOrdered own_quits l r v h = (ground (arith, v), ground (arith, v))
happen-IsOrdered quits l r v h = (ground (arith, v), ground (arith, v))
happen-IsOrdered wakes l r v h = (ground (arith, v), ground (arith, v))
happen-IsOrdered (goes_on other) l r v h =
    subst IsOrdered (let e : go_on other l ≡ r = cc in e) (go_on-IsOrdered other l v)
happen-IsOrdered (own_queues cb) l r v h = elim (Bool-cases (is_running l.phase)) [
  | inl on ↦
      subst IsOrdered (let e : queue_in_loop true cb l ≡ r = ground (arith, on, h) in e)
        (queue-IsOrdered true cb l v)
  | inr off ↦ subst IsOrdered (let e : l ≡ r = ground (arith, off, h) in e) v
]
happen-IsOrdered (queues cb) l r v h =
    subst IsOrdered (let e : queue_in_loop false cb l ≡ r = cc in e) (queue-IsOrdered false cb l v)

run-IsOrdered : (es : List Event) (l r : EventLoop) → IsOrdered l → run es l ≡ ok r → IsOrdered r
unfolding run
run-IsOrdered [] l r v h = subst IsOrdered (let e : l ≡ r = cc in e) v
run-IsOrdered (e ∷ es) l r v h = elim (Result-cases (happen e l)) [
  | inl (m, f) ↦ run-IsOrdered es m r (happen-IsOrdered e l m v f) (rw f at h)
  | inr (x, f) ↦ absurd (ground (arith, rw f at h))
]

-- In every history of a loop, each functor that was queued has run once, is taken to run or is
-- pending, in the order of the calls of `queueInLoop`.
run_ordered :
    (es : List Event) (r : EventLoop)
    → run es init ≡ ok r
    → r.queued ≡ r.ran ++ r.functors ++ r.pending_functors
unfolding init
run_ordered es r h = (run-IsOrdered es init r (refl, λ e. refl) h).0

-- A functor that the loop's own thread queues before it calls `loop` waits at the first `poll`
-- although nothing wakes the loop.
queue_before_loop :
    (cb : ℕ) (l : EventLoop)
    → l.phase ≡ outside
    → l.wakeups + l.waking ≡ 0
    → (r : EventLoop) × (run (starts ∷ goes_on false ∷ []) (queue_in_loop true cb l) ≡ ok r)
      × (r.phase ≡ polling)
      × (r.pending_functors ≡ l.pending_functors ++ (cb ∷ []))
      × (r.wakeups + r.waking ≡ 0)
unfolding run happen start go_on test_quit queue_in_loop
queue_before_loop cb l p w = (
  record l {
    phase = polling;
    quit = false;
    pending_functors = l.pending_functors ++ (cb ∷ []);
    queued = l.queued ++ (cb ∷ []);
  },
  rw p refl,
  refl,
  refl,
  w,
)
