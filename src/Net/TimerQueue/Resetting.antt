-- ===== src/Net/TimerQueue/Resetting.antt =====
-- What `reset` makes of the timers that have fired.
use pp_d_scache.Net.TimerQueue.Canceling.{freed, freed-IsSynced}
use pp_d_scache.Base.{
  ℕ, ◌≡◌, refl, ap, subst, ◌∙◌, inl, inr, Bool, true, false, not, ◌&&◌, List, [], ◌∷◌, none, some,
  ◌==◌, if◌then◌else◌, ok, ℕ_discrete, arith, Bool-cases,
}
use pp_d_scache.Base.Table
use pp_d_scache.Base.PairSet.{Pair, mem, mem-insert}
use pp_d_scache.Net.TimerQueue.{
  Timer, TimerQueue, pair, entry, active_timer, restart, reset_one, reset_all,
}
use pp_d_scache.Net.TimerQueue.Sync.{
  IsSynced, inserted, inserted-IsSynced, insert-inserted, same_timer,
}
use pp_d_scache.Net.TimerQueue.Expiry.{has_address, IsApart}

-- A timer that is set aside, with a new time.
pub restarted : ℕ → Timer → ℕ → TimerQueue → TimerQueue
restarted now t p q = record q { heap = Table.insert ℕ_discrete p (restart now t) q.heap }

pub restarted-IsSynced :
    (aside : ℕ → Bool) (now p : ℕ) (t : Timer) (q : TimerQueue)
    → IsSynced aside q
    → q.heap p ≡ some t
    → aside p ≡ true
    → IsSynced aside (restarted now t p q)
unfolding restarted restart
restarted-IsSynced aside now p t q v found here =
    let (t', found', out') = v.kept p here in
    let same : t' ≡ t = grind (arith, found, found') in
    let out : mem (active_timer t p) q.active_timers ≡ false = rw same at out' in
    record {
      sorted = v.sorted;
      active_sorted = v.active_sorted;
      sizes = v.sizes;
      forward = λ w r h.
          let (u, f, e, a) = v.forward w r h in
          let away : (r == p) ≡ false = elim (Bool-cases (r == p)) [
            | inl here' ↦
                let (at, s') = same_timer q r p u t here' f found in
                absurd (grind (arith, at, s', a, out))
            | inr away ↦ away
          ] in
          (u, ground (arith, f, away), e, a);
      backward = λ r s h.
          let (u, f, e, a) = v.backward r s h in
          let away : (r == p) ≡ false = elim (Bool-cases (r == p)) [
            | inl here' ↦
                let (at, s') = same_timer q r p u t here' f found in
                absurd (grind (arith, h, at, s', e, out, ap (λ (x : Timer). x.sequence) s'))
            | inr away ↦ away
          ] in
          (u, ground (arith, f, away), e, a);
      kept = λ r h. elim (Bool-cases (r == p)) [
        | inl here' ↦
            let e : r ≡ p = ground arith in
            (restart now t, ground (arith, here'), grind (arith, e, out))
        | inr away ↦ let (u, f, a) = v.kept r h in (u, ground (arith, f, away), a)
      ];
      known = λ r u h. elim (Bool-cases (r == p)) [
        | inl here' ↦
            let e : r ≡ p = ground arith in
            let s : restart now t ≡ u = ground (arith, h, here') in
            let n : t.sequence ≡ u.sequence = ap (λ (x : Timer). x.sequence) s in
            let (le, lt) = v.known p t found in (omega (arith, n, le), omega (arith, e, lt))
        | inr away ↦ v.known r u (ground (arith, h, away))
      ];
    }

-- Whether a timer that has fired is started again.
abbrev pub goes_on : List Pair → Timer → ℕ → Bool
goes_on canceling t p = t.repeat && not (mem (active_timer t p) canceling)

-- What `reset` makes of a timer that has fired.
unfoldable pub ended : ℕ → Timer → ℕ → TimerQueue → TimerQueue
unfolding restarted
ended now t p q =
    if goes_on q.canceling_timers t p
    then inserted (restart now t) p (restarted now t p q)
    else freed p q

pub reset_one-ended :
    (aside : ℕ → Bool) (now p : ℕ) (t : Timer) (q : TimerQueue)
    → IsSynced aside q
    → q.heap p ≡ some t
    → aside p ≡ true
    → reset_one now p q ≡ ok (ended now t p q)
unfolding reset_one ended restarted freed
reset_one-ended aside now p t q v found here = elim (Bool-cases (goes_on q.canceling_timers t p)) [
  | inl on ↦
      let e =
        insert-inserted aside p (restart now t) (restarted now t p q)
          (restarted-IsSynced aside now p t q v found here) (ground arith) here in
      rw (found, on, e) refl
  | inr over ↦ rw (found, over) refl
]

pub ended-IsSynced :
    (aside rest : ℕ → Bool) (now p : ℕ) (t : Timer) (q : TimerQueue)
    → IsSynced aside q
    → q.heap p ≡ some t
    → aside p ≡ true
    → ((r : ℕ) → rest r ≡ true → (aside r ≡ true) × ((r == p) ≡ false))
    → IsSynced rest (ended now t p q)
unfolding ended
ended-IsSynced aside rest now p t q v found here apart =
    elim (Bool-cases (goes_on q.canceling_timers t p)) [
      | inl on ↦ rw on (
          inserted-IsSynced aside rest p (restart now t) (restarted now t p q)
            (restarted-IsSynced aside now p t q v found here) (ground arith) here apart)
      | inr over ↦ rw over (freed-IsSynced aside rest p q v here apart)
    ]

-- The timer at `p` has a new time and waits for it, or is gone.
abbrev pub Outcome : ℕ → List Pair → Timer → ℕ → TimerQueue → Type 0
Outcome now canceling t p r =
    (goes_on canceling t p ≡ true
      → (r.heap p ≡ some (restart now t)) × (mem (entry (restart now t) p) r.timers ≡ true))
    × (goes_on canceling t p ≡ false → r.heap p ≡ none)

abbrev pub Agree : ℕ → TimerQueue → TimerQueue → Type 0
Agree p r q = (r.heap p ≡ q.heap p) × ((w : ℕ) → mem (pair w p) r.timers ≡ mem (pair w p) q.timers)

pub ended-Outcome :
    (now : ℕ) (t : Timer) (p : ℕ) (q : TimerQueue)
    → Outcome now q.canceling_timers t p (ended now t p q)
unfolding ended restarted freed inserted
ended-Outcome now t p q = (
  (λ on. rw on (
    ground arith,
    ground (arith, mem-insert (entry (restart now t) p) (entry (restart now t) p) q.timers),
  )),
  (λ over. rw over (ground arith)),
)

pub ended-Agree :
    (now : ℕ) (t : Timer) (p r : ℕ) (q : TimerQueue)
    → (r == p) ≡ false
    → Agree r (ended now t p q) q
unfolding ended restarted freed inserted
ended-Agree now t p r q away = elim (Bool-cases (goes_on q.canceling_timers t p)) [
  | inl on ↦ rw on (
    ground (arith, away),
    λ w. ground (arith, away, mem-insert (pair w r) (entry (restart now t) p) q.timers),
  )
  | inr over ↦ rw over (ground (arith, away), λ w. refl)
]

pub ended-canceling :
    (now : ℕ) (t : Timer) (p : ℕ) (q : TimerQueue)
    → (ended now t p q).canceling_timers ≡ q.canceling_timers
unfolding ended restarted freed inserted
ended-canceling now t p q = elim (Bool-cases (goes_on q.canceling_timers t p)) [
  | inl on ↦ rw on refl
  | inr over ↦ rw over refl
]

pub Outcome-Agree :
    (now : ℕ) (canceling : List Pair) (t : Timer) (p : ℕ) (r q : TimerQueue)
    → Agree p r q
    → Outcome now canceling t p q
    → Outcome now canceling t p r
Outcome-Agree now canceling t p r q a o = (
  (λ on. (a.0 ∙ (o.0 on).0, a.1 (restart now t).expiration ∙ (o.0 on).1)),
  (λ over. a.0 ∙ o.1 over),
)

abbrev pub Resets : ℕ → List Pair → TimerQueue → Type 0
Resets now l q =
    (r : TimerQueue) × (reset_all now l q ≡ ok r)
    × IsSynced (λ p. false) r
    × ((p : ℕ) (t : Timer)
        → has_address l p ≡ true
        → q.heap p ≡ some t
        → Outcome now q.canceling_timers t p r)
    × ((p : ℕ) → has_address l p ≡ false → Agree p r q)

pub reset_all-Resets :
    (now : ℕ) (l : List Pair) (q : TimerQueue)
    → IsApart l
    → IsSynced (has_address l) q
    → Resets now l q
unfolding reset_all
reset_all-Resets now [] q apart v =
    (q, refl, v, (λ p t h f. absurd (ground (arith, h))), (λ p h. (refl, λ w. refl)))
reset_all-Resets now (x ∷ l) q apart v =
    let p = x.second in
    let (t, found, out) = v.kept p (ground arith) in
    let q' = ended now t p q in
    let e = reset_one-ended (has_address (x ∷ l)) now p t q v found (ground arith) in
    let w =
      ended-IsSynced (has_address (x ∷ l)) (has_address l) now p t q v found (ground arith) (λ r h.
        (
          ground (arith, h),
          elim (Bool-cases (r == p)) [
            | inl at ↦ let same : r ≡ p = ground arith in absurd (grind (arith, same, h, apart.0))
            | inr away ↦ away
          ],
        )) in
    let (r, f, z, outcome, agree) = reset_all-Resets now l q' apart.1 w in
    (
      r,
      rw e f,
      z,
      (λ i u h g. elim (Bool-cases (i == p)) [
        | inl at ↦
            let (same, s) = same_timer q i p u t at g found in
            let o : Outcome now q.canceling_timers t p r =
              Outcome-Agree now q.canceling_timers t p r q' (agree p apart.0)
                (ended-Outcome now t p q) in
            rw (same, s) o
        | inr away ↦
            let (a, b) = ended-Agree now t p i q away in
            subst (λ c. Outcome now c u i r) (ended-canceling now t p q)
              (outcome i u (ground (arith, h, away)) (a ∙ g))
      ]),
      (λ i h.
          let (a, b) = agree i (ground (arith, h)) in
          let (a', b') = ended-Agree now t p i q (ground (arith, h)) in (a ∙ a', λ w. b w ∙ b' w)),
    )
