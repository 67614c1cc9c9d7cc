-- ===== src/Net/TimerQueue/Adding.antt =====
-- New timers, and every call that the code of a callback makes, keep the queue in order.
use pp_d_scache.Net.TimerQueue.Canceling.{cancel-IsSynced}
use pp_d_scache.Base.{
  ℕ, suc, ◌<◌, ◌≡◌, refl, ap, ◌∙◌, inl, inr, Bool, true, false, ◌||◌, List, [], ◌∷◌, Option, none,
  some, ltb, ◌==◌, if◌then◌else◌, ok, ℕ_discrete, arith, Bool-cases, Option-cases,
}
use pp_d_scache.Base.Table
use pp_d_scache.Base.PairSet.{Pair, mem}
use pp_d_scache.Net.TimerQueue.{
  Timer, TimerQueue, active_timer, insert, uintptr_max, add_timer_in_loop, add_timer, reset_timerfd,
  is_earliest, Call, adds, cancels, is_free, make, make_all,
}
use pp_d_scache.Net.TimerQueue.Sync.{IsSynced, inserted, inserted-IsSynced, insert-inserted}

-- The fields that the sets and the memory do not depend on.
pub IsSynced-flags :
    (aside : ℕ → Bool) (q : TimerQueue) (calling : Bool) (canceling : List Pair) (armed : Option ℕ)
    → IsSynced aside q
    → IsSynced aside
        (record q { calling_expired_timers = calling; canceling_timers = canceling; armed = armed })
IsSynced-flags aside q calling canceling armed v = record {
  sorted = v.sorted;
  active_sorted = v.active_sorted;
  sizes = v.sizes;
  forward = v.forward;
  backward = v.backward;
  kept = v.kept;
  known = v.known;
}

new_timer : ℕ → ℕ → ℕ → Bool → TimerQueue → Timer
new_timer callback when interval repeat q = record {
  callback = callback;
  expiration = when;
  interval = interval;
  repeat = repeat;
  sequence = suc q.num_created;
}

created : Timer → ℕ → TimerQueue → TimerQueue
created t p q = record q {
  heap = Table.insert ℕ_discrete p t q.heap;
  num_created = suc q.num_created;
}

created-IsSynced :
    (aside : ℕ → Bool) (p : ℕ) (t : Timer) (q : TimerQueue)
    → IsSynced aside q
    → q.heap p ≡ none
    → p < uintptr_max
    → t.sequence ≡ suc q.num_created
    → IsSynced (λ r. aside r || (r == p)) (created t p q)
unfolding created
created-IsSynced aside p t q v free low seq = record {
  sorted = v.sorted;
  active_sorted = v.active_sorted;
  sizes = v.sizes;
  forward = λ w r h. let (u, f, e, a) = v.forward w r h in (u, grind (arith, f, free), e, a);
  backward = λ r s h. let (u, f, e, a) = v.backward r s h in (u, grind (arith, f, free), e, a);
  kept = λ r h. elim (Bool-cases (r == p)) [
    | inl here ↦
        let e : r ≡ p = ground arith in
        (
          t,
          ground (arith, here),
          elim (Bool-cases (mem (active_timer t r) q.active_timers)) [
            | inl there ↦
                let (u, f, n, at) = v.backward r t.sequence there in
                absurd (grind (arith, e, f, free))
            | inr out ↦ out
          ],
        )
    | inr away ↦
        let (u, f, a) = v.kept r (ground (arith, h, away)) in (u, ground (arith, f, away), a)
  ];
  known = λ r u h. elim (Bool-cases (r == p)) [
    | inl here ↦
        let e : r ≡ p = ground arith in
        let s : t ≡ u = ground (arith, h, here) in
        let n : t.sequence ≡ u.sequence = ap (λ (x : Timer). x.sequence) s in
        (omega (arith, n, seq), omega (arith, e, low))
    | inr away ↦ let (le, lt) = v.known r u (ground (arith, h, away)) in (omega (arith, le), lt)
  ];
}

add_timer_in_loop-insert :
    (p : ℕ) (t : Timer) (q r : TimerQueue) (earliest : Bool)
    → q.heap p ≡ some t
    → insert p q ≡ ok (earliest, r)
    → add_timer_in_loop p q ≡ ok (if earliest then record r { armed = some t.expiration } else r)
unfolding add_timer_in_loop reset_timerfd
add_timer_in_loop-insert p t q r earliest f i = rw (f, i) refl

add_timer-IsSynced :
    (aside : ℕ → Bool) (p callback when interval : ℕ) (repeat : Bool) (q : TimerQueue)
    → IsSynced aside q
    → q.heap p ≡ none
    → p < uintptr_max
    → (r : TimerQueue) × (add_timer p callback when interval repeat q ≡ ok r) × IsSynced aside r
unfolding add_timer new_timer created
add_timer-IsSynced aside p callback when interval repeat q v free low =
    let t = new_timer callback when interval repeat q in
    let v' = created-IsSynced aside p t q v free low refl in
    let here : (created t p q).heap p ≡ some t = ground arith in
    let i = insert-inserted (λ r. aside r || (r == p)) p t (created t p q) v' here (ground arith) in
    let w =
      inserted-IsSynced (λ r. aside r || (r == p)) aside p t (created t p q) v' here (ground arith)
        (λ r h. (
          ground (arith, h),
          elim (Bool-cases (r == p)) [
            | inl at ↦
                let e : r ≡ p = ground arith in
                let (u, f, out) = v.kept r h in absurd (grind (arith, e, f, free))
            | inr away ↦ away
          ],
        )) in
    let r = inserted t p (created t p q) in
    elim (Bool-cases (is_earliest when q.timers)) [
      | inl first ↦ (
        record r { armed = some when },
        add_timer_in_loop-insert p t (created t p q) r true here (i ∙ ap (λ b. ok (b, r)) first),
        IsSynced-flags aside r r.calling_expired_timers r.canceling_timers (some when) w,
      )
      | inr later ↦ (
        r,
        add_timer_in_loop-insert p t (created t p q) r false here (i ∙ ap (λ b. ok (b, r)) later),
        w,
      )
    ]

pub make-IsSynced :
    (aside : ℕ → Bool) (c : Call) (q : TimerQueue)
    → IsSynced aside q
    → (r : TimerQueue) × (make c q ≡ ok r) × IsSynced aside r
unfolding make is_free
make-IsSynced aside (cancels id) q v = cancel-IsSynced aside id q v
make-IsSynced aside (adds p callback when interval repeat) q v = elim (Option-cases (q.heap p)) [
  | inr (t, f) ↦ (q, ground (arith, f), v)
  | inl free ↦ elim (Bool-cases (ltb p uintptr_max)) [
    | inr high ↦ (q, ground (arith, free, high), v)
    | inl low ↦
        let (r, e, w) =
          add_timer-IsSynced aside p callback when interval repeat q v free (ground arith) in
        (r, ground (arith, free, low, e), w)
  ]
]

pub make_all-IsSynced :
    (aside : ℕ → Bool) (l : List Call) (q : TimerQueue)
    → IsSynced aside q
    → (r : TimerQueue) × (make_all l q ≡ ok r) × IsSynced aside r
unfolding make_all
make_all-IsSynced aside [] q v = (q, refl, v)
make_all-IsSynced aside (c ∷ l) q v =
    let (r, e, w) = make-IsSynced aside c q v in
    let (s, f, x) = make_all-IsSynced aside l r w in (s, rw e f, x)
