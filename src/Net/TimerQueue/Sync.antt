-- ===== src/Net/TimerQueue/Sync.antt =====
-- Both sets of the queue and the memory agree, and the assertions of each operation hold.
use pp_d_scache.Base.{
  ℕ, ◌≤◌, ◌<◌, ◌≡◌, ap, ◌∙◌, inl, inr, Bool, true, false, some, ◌==◌, ok, length, arith, Bool-cases,
}
use pp_d_scache.Base.PairSet.{
  Pair, mem, is_less, is_same, erase, IsSorted, IsSorted-insert, IsSorted-erase, mem-insert,
  mem-erase, length-insert, length-erase,
}
use pp_d_scache.Base.PairSet
use pp_d_scache.Net.TimerQueue.{
  Timer, TimerQueue, pair, entry, active_timer, insert, uintptr_max, is_earliest,
}

-- The entries of both sets are those of the same timers, which are alive, and so are the timers of
-- `aside`, which stand in neither set.
pub record IsSynced (aside : ℕ → Bool) (q : TimerQueue) : Type 0 where
  pub sorted : IsSorted q.timers
  pub active_sorted : IsSorted q.active_timers
  pub sizes : length q.timers ≡ length q.active_timers
  pub forward :
      (w p : ℕ)
      → mem (pair w p) q.timers ≡ true
      → (t : Timer) × (q.heap p ≡ some t)
        × (t.expiration ≡ w)
        × (mem (active_timer t p) q.active_timers ≡ true)
  pub backward :
      (p s : ℕ)
      → mem (pair p s) q.active_timers ≡ true
      → (t : Timer) × (q.heap p ≡ some t) × (t.sequence ≡ s) × (mem (entry t p) q.timers ≡ true)
  pub kept :
      (p : ℕ)
      → aside p ≡ true
      → (t : Timer) × (q.heap p ≡ some t) × (mem (active_timer t p) q.active_timers ≡ false)
  pub known :
      (p : ℕ) (t : Timer) → q.heap p ≡ some t → (t.sequence ≤ q.num_created) × (p < uintptr_max)

-- A timer that stands in `timers` is not set aside.
pub not-mem-aside :
    (aside : ℕ → Bool) (q : TimerQueue)
    → IsSynced aside q
    → (w p : ℕ) → aside p ≡ true
    → mem (pair w p) q.timers ≡ false
not-mem-aside aside q v w p h = elim (Bool-cases (mem (pair w p) q.timers)) [
  | inl there ↦
      let (t, found, e, a) = v.forward w p there in
      let (t', found', a') = v.kept p h in absurd (grind (arith, found, found', a, a'))
  | inr out ↦ out
]

-- What `insert` gives for a timer that is set aside.
unfoldable pub inserted : Timer → ℕ → TimerQueue → TimerQueue
inserted t p q = record q {
  timers = PairSet.insert (entry t p) q.timers;
  active_timers = PairSet.insert (active_timer t p) q.active_timers;
}

pub inserted-IsSynced :
    (aside rest : ℕ → Bool) (p : ℕ) (t : Timer) (q : TimerQueue)
    → IsSynced aside q
    → q.heap p ≡ some t
    → aside p ≡ true
    → ((r : ℕ) → rest r ≡ true → (aside r ≡ true) × ((r == p) ≡ false))
    → IsSynced rest (inserted t p q)
unfolding inserted
inserted-IsSynced aside rest p t q v found here apart =
    let new = not-mem-aside aside q v t.expiration p here in
    let (t', found', out') = v.kept p here in
    let same : t' ≡ t = grind (arith, found, found') in
    let out : mem (active_timer t p) q.active_timers ≡ false = rw same at out' in
    record {
      sorted = IsSorted-insert (entry t p) q.timers v.sorted;
      active_sorted = IsSorted-insert (active_timer t p) q.active_timers v.active_sorted;
      sizes = ground (
        arith,
        new,
        out,
        v.sizes,
        length-insert (entry t p) q.timers v.sorted,
        length-insert (active_timer t p) q.active_timers v.active_sorted,
      );
      forward = λ w r h. elim (Bool-cases (is_same (pair w r) (entry t p))) [
        | inl now ↦ (
          t,
          let e : r ≡ p = ground arith in ap q.heap e ∙ found,
          ground arith,
          ground (arith, mem-insert (active_timer t r) (active_timer t p) q.active_timers),
        )
        | inr old ↦
            let (u, f, e, a) =
              v.forward w r (ground (arith, old, mem-insert (pair w r) (entry t p) q.timers)) in
            (
              u,
              f,
              e,
              ground (arith, a, mem-insert (active_timer u r) (active_timer t p) q.active_timers),
            )
      ];
      backward = λ r s h. elim (Bool-cases (is_same (pair r s) (active_timer t p))) [
        | inl now ↦ (
          t,
          let e : r ≡ p = ground arith in ap q.heap e ∙ found,
          ground arith,
          ground (arith, mem-insert (entry t r) (entry t p) q.timers),
        )
        | inr old ↦
            let (u, f, e, a) =
              v.backward r s
                (ground (arith, old, mem-insert (pair r s) (active_timer t p) q.active_timers)) in
            (u, f, e, ground (arith, a, mem-insert (entry u r) (entry t p) q.timers))
      ];
      kept = λ r h.
          let (u, f, a) = v.kept r (apart r h).0 in
          (
            u,
            f,
            ground (
              arith,
              a,
              (apart r h).1,
              mem-insert (active_timer u r) (active_timer t p) q.active_timers,
            ),
          );
      known = v.known;
    }

-- `insert` of a timer that is set aside passes its assertions.
pub insert-inserted :
    (aside : ℕ → Bool) (p : ℕ) (t : Timer) (q : TimerQueue)
    → IsSynced aside q
    → q.heap p ≡ some t
    → aside p ≡ true
    → insert p q ≡ ok (is_earliest t.expiration q.timers, inserted t p q)
unfolding insert inserted
insert-inserted aside p t q v found here =
    let new = not-mem-aside aside q v t.expiration p here in
    let (t', found', out') = v.kept p here in
    let same : t' ≡ t = grind (arith, found, found') in
    let out : mem (active_timer t p) q.active_timers ≡ false = rw same at out' in
    let sizes = length-insert (entry t p) q.timers v.sorted in
    let active_sizes = length-insert (active_timer t p) q.active_timers v.active_sorted in
    ground (arith, found, new, out, v.sizes, sizes, active_sizes)

pub same_timer :
    (q : TimerQueue) (r p : ℕ) (u t : Timer)
    → (r == p) ≡ true
    → q.heap r ≡ some u
    → q.heap p ≡ some t
    → (r ≡ p) × (u ≡ t)
same_timer q r p u t h f g = let e : r ≡ p = ground arith in (e, grind (arith, f, g, e))
