-- ===== src/Net/TimerQueue/Canceling.antt =====
-- Timers that leave the sets or the memory, and `cancelInLoop`.
use pp_d_scache.Base.{
  ℕ, ◌≡◌, ap, ◌∙◌, sym, inl, inr, Bool, true, false, ◌||◌, some, ◌==◌, ok, ℕ_discrete, arith,
  Bool-cases,
}
use pp_d_scache.Base.Table
use pp_d_scache.Base.PairSet.{
  Pair, mem, is_less, is_same, erase, IsSorted, IsSorted-insert, IsSorted-erase, mem-insert,
  mem-erase, length-insert, length-erase,
}
use pp_d_scache.Base.PairSet
use pp_d_scache.Net.TimerQueue.{
  Timer, TimerQueue, pair, entry, active_timer, erase_active, cancel_in_loop,
}
use pp_d_scache.Net.TimerQueue.Sync.{IsSynced, same_timer}

-- A timer that is taken from both sets, and one that is freed.
unfoldable pub taken : Timer → ℕ → TimerQueue → TimerQueue
taken t p q = record q {
  timers = erase (entry t p) q.timers;
  active_timers = erase (active_timer t p) q.active_timers;
}

unfoldable pub freed : ℕ → TimerQueue → TimerQueue
freed p q = record q { heap = Table.erase ℕ_discrete p q.heap }

-- A timer that is alive and one that is set aside, at different addresses.
pub kept-apart :
    (aside : ℕ → Bool) (q : TimerQueue)
    → IsSynced aside q
    → (r p : ℕ) (t : Timer) → q.heap p ≡ some t
    → mem (active_timer t p) q.active_timers ≡ true
    → aside r ≡ true
    → (r == p) ≡ false
kept-apart aside q v r p t found here h = elim (Bool-cases (r == p)) [
  | inl here' ↦
      let (u, f, a) = v.kept r h in
      let (at, s') = same_timer q r p u t here' f found in absurd (grind (arith, at, s', a, here))
  | inr away ↦ away
]

pub taken-IsSynced :
    (aside : ℕ → Bool) (p : ℕ) (t : Timer) (q : TimerQueue)
    → IsSynced aside q
    → q.heap p ≡ some t
    → mem (active_timer t p) q.active_timers ≡ true
    → IsSynced (λ r. aside r || (r == p)) (taken t p q)
unfolding taken
taken-IsSynced aside p t q v found here =
    let (t', found', e', there') = v.backward p t.sequence here in
    let same : t' ≡ t = grind (arith, found, found') in
    let there : mem (entry t p) q.timers ≡ true = rw same at there' in
    record {
      sorted = IsSorted-erase (entry t p) q.timers v.sorted;
      active_sorted = IsSorted-erase (active_timer t p) q.active_timers v.active_sorted;
      sizes = ground (
        arith,
        here,
        there,
        v.sizes,
        length-erase (entry t p) q.timers,
        length-erase (active_timer t p) q.active_timers,
      );
      forward = λ w r h.
          let m = mem-erase (pair w r) (entry t p) q.timers v.sorted in
          let (u, f, e, a) = v.forward w r (ground (arith, m)) in
          let apart : (r == p) ≡ false = elim (Bool-cases (r == p)) [
            | inl here' ↦
                let (at, s') = same_timer q r p u t here' f found in
                absurd (ground (arith, h, here', e, ap (λ (x : Timer). x.expiration) s', m))
            | inr away ↦ away
          ] in
          (
            u,
            f,
            e,
            ground (
              arith,
              a,
              apart,
              mem-erase (active_timer u r) (active_timer t p) q.active_timers v.active_sorted,
            ),
          );
      backward = λ r s h.
          let m = mem-erase (pair r s) (active_timer t p) q.active_timers v.active_sorted in
          let (u, f, e, a) = v.backward r s (ground (arith, m)) in
          let apart : (r == p) ≡ false = elim (Bool-cases (r == p)) [
            | inl here' ↦
                let (at, s') = same_timer q r p u t here' f found in
                absurd (ground (arith, h, here', e, ap (λ (x : Timer). x.sequence) s', m))
            | inr away ↦ away
          ] in
          (u, f, e, ground (arith, a, apart, mem-erase (entry u r) (entry t p) q.timers v.sorted));
      kept = λ r h. elim (Bool-cases (r == p)) [
        | inl here' ↦
            let e : r ≡ p = ground arith in
            (
              t,
              ap q.heap e ∙ found,
              ground (
                arith,
                here',
                mem-erase (active_timer t r) (active_timer t p) q.active_timers v.active_sorted,
              ),
            )
        | inr away ↦
            let (u, f, a) = v.kept r (ground (arith, h, away)) in
            (
              u,
              f,
              ground (
                arith,
                a,
                mem-erase (active_timer u r) (active_timer t p) q.active_timers v.active_sorted,
              ),
            )
      ];
      known = v.known;
    }

pub freed-IsSynced :
    (aside rest : ℕ → Bool) (p : ℕ) (q : TimerQueue)
    → IsSynced aside q
    → aside p ≡ true
    → ((r : ℕ) → rest r ≡ true → (aside r ≡ true) × ((r == p) ≡ false))
    → IsSynced rest (freed p q)
unfolding freed
freed-IsSynced aside rest p q v here apart =
    let (t, found, out) = v.kept p here in
    record {
      sorted = v.sorted;
      active_sorted = v.active_sorted;
      sizes = v.sizes;
      forward = λ w r h.
          let (u, f, e, a) = v.forward w r h in
          let away : (r == p) ≡ false = elim (Bool-cases (r == p)) [
            | inl here' ↦
                let (at, s') = same_timer q r p u t here' f found in
                absurd (grind (arith, at, s', a, out))
            | inr away ↦ away
          ] in
          (u, ground (arith, f, away), e, a);
      backward = λ r s h.
          let (u, f, e, a) = v.backward r s h in
          let away : (r == p) ≡ false = elim (Bool-cases (r == p)) [
            | inl here' ↦
                let (at, s') = same_timer q r p u t here' f found in
                absurd (grind (arith, h, at, s', e, out, ap (λ (x : Timer). x.sequence) s'))
            | inr away ↦ away
          ] in
          (u, ground (arith, f, away), e, a);
      kept =
          λ r h. let (u, f, a) = v.kept r (apart r h).0 in (u, ground (arith, f, (apart r h).1), a);
      known = λ r u h. v.known r u (ground (arith, h));
    }

unfoldable pub erased : Timer → ℕ → TimerQueue → TimerQueue
erased t p q = freed p (taken t p q)

erased-IsSynced :
    (aside : ℕ → Bool) (p : ℕ) (t : Timer) (q : TimerQueue)
    → IsSynced aside q
    → q.heap p ≡ some t
    → mem (active_timer t p) q.active_timers ≡ true
    → IsSynced aside (erased t p q)
unfolding erased
erased-IsSynced aside p t q v found here =
    freed-IsSynced (λ r. aside r || (r == p)) aside p (taken t p q)
      (taken-IsSynced aside p t q v found here) (ground arith)
      (λ r h. (ground (arith, h), kept-apart aside q v r p t found here h))

-- The cancellation of a timer that waits erases it and frees it.
pub cancel_in_loop-erased :
    (aside : ℕ → Bool) (p : ℕ) (t : Timer) (q : TimerQueue)
    → IsSynced aside q
    → q.heap p ≡ some t
    → mem (active_timer t p) q.active_timers ≡ true
    → cancel_in_loop (active_timer t p) q ≡ ok (erased t p q)
unfolding cancel_in_loop erase_active erased freed taken
cancel_in_loop-erased aside p t q v found here =
    let (t', found', e', there') = v.backward p t.sequence here in
    let same : t' ≡ t = grind (arith, found, found') in
    let there : mem (entry t p) q.timers ≡ true = rw same at there' in
    let sizes = length-erase (entry t p) q.timers in
    let active_sizes = length-erase (active_timer t p) q.active_timers in
    ground (arith, found, here, there, v.sizes, sizes, active_sizes)

pub cancel-IsSynced :
    (aside : ℕ → Bool) (id : Pair) (q : TimerQueue)
    → IsSynced aside q
    → (r : TimerQueue) × (cancel_in_loop id q ≡ ok r) × IsSynced aside r
unfolding cancel_in_loop erase_active
cancel-IsSynced aside id q v = elim (Bool-cases (mem id q.active_timers)) [
  | inl there ↦
      let (t, f, e, a) = v.backward id.first id.second there in
      let e' : active_timer t id.first ≡ id = ap (pair id.first) e in
      (
        erased t id.first q,
        ap (λ x. cancel_in_loop x q) (sym e')
            ∙ cancel_in_loop-erased aside id.first t q v f (rw e' there),
        erased-IsSynced aside id.first t q v f (rw e' there),
      )
  | inr out ↦ elim (Bool-cases q.calling_expired_timers) [
    | inl calling ↦ (
      record q { canceling_timers = PairSet.insert id q.canceling_timers },
      ground (arith, out, calling, v.sizes),
      record {
        sorted = v.sorted;
        active_sorted = v.active_sorted;
        sizes = v.sizes;
        forward = v.forward;
        backward = v.backward;
        kept = v.kept;
        known = v.known;
      },
    )
    | inr idle ↦ (q, ground (arith, out, idle, v.sizes), v)
  ]
]
