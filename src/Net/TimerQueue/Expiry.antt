-- ===== src/Net/TimerQueue/Expiry.antt =====
-- `getExpired` takes the entries that are due, and no other, and `reset` gives each timer its end.
use pp_d_scache.Net.TimerQueue.Canceling.{taken, taken-IsSynced}
use pp_d_scache.Base.{
  ℕ, ◌<◌, ◌≡◌, refl, ap, subst, ◌∙◌, sym, inl, inr, Bool, true, false, not, ◌&&◌, ◌||◌, List, [],
  ◌∷◌, ◌++◌, some, ltb, leb, ◌==◌, ok, length, arith, Bool-cases,
}
use pp_d_scache.Base.PairSet.{Pair, mem, is_less, IsSorted, erase, not-mem-Above}
use pp_d_scache.Net.TimerQueue.{
  Timer, TimerQueue, pair, entry, active_timer, uintptr_max, before, from, erase_expired,
  get_expired,
}
use pp_d_scache.Net.TimerQueue.Sync.{IsSynced}
use pp_d_scache.Net.TimerQueue.Bound.{
  before-append-from, mem-before, mem-from, from-later, IsSorted-before,
}

-- The addresses of a list of entries.
abbrev pub has_address : List Pair → ℕ → Bool
has_address [] p = false
has_address (x ∷ l) p = (p == x.second) || has_address l p

pub IsSynced-mono :
    (aside rest : ℕ → Bool) (q : TimerQueue)
    → ((r : ℕ) → rest r ≡ true → aside r ≡ true)
    → IsSynced aside q
    → IsSynced rest q
IsSynced-mono aside rest q sub v = record {
  sorted = v.sorted;
  active_sorted = v.active_sorted;
  sizes = v.sizes;
  forward = v.forward;
  backward = v.backward;
  kept = λ r h. v.kept r (sub r h);
  known = v.known;
}

erase_expired-first :
    (x : Pair) (l : List Pair) (q : TimerQueue) (t : Timer)
    → q.heap x.second ≡ some t
    → mem (active_timer t x.second) q.active_timers ≡ true
    → erase_expired (x ∷ l) q
      ≡ erase_expired l
          (record q { active_timers = erase (active_timer t x.second) q.active_timers })
unfolding erase_expired
erase_expired-first x l q t found here = rw (found, here) refl

erase_expired-IsSynced :
    (l rest : List Pair) (aside : ℕ → Bool) (q : TimerQueue)
    → IsSynced aside (record q { timers = l ++ rest })
    → (active : List Pair) × (erase_expired l (record q { timers = rest })
        ≡ ok (record q { timers = rest; active_timers = active }))
      × IsSynced
          (λ r. aside r || has_address l r)
          (record q { timers = rest; active_timers = active })
unfolding erase_expired taken erase mem
erase_expired-IsSynced [] rest aside q v = (
  q.active_timers,
  refl,
  IsSynced-mono aside (λ r. aside r || false) (record q { timers = rest })
      (λ r h. ground (arith, h)) v,
)
erase_expired-IsSynced (x ∷ l) rest aside q v =
    let (t, found, e, here) = v.forward x.first x.second (ground arith) in
    let all = record q { timers = x ∷ l ++ rest } in
    let w = taken-IsSynced aside x.second t all v found here in
    let gone : erase (entry t x.second) (x ∷ l ++ rest) ≡ l ++ rest = ground (arith, e) in
    let q' = record q { active_timers = erase (active_timer t x.second) q.active_timers } in
    let (active, r, z) =
      erase_expired-IsSynced l rest (λ r. aside r || (r == x.second)) q'
        (subst (λ l. IsSynced (λ r. aside r || (r == x.second)) (record q' { timers = l })) gone
          w) in
    (
      active,
      erase_expired-first x l (record q { timers = rest }) t found here ∙ r,
      IsSynced-mono (λ r. (aside r || (r == x.second)) || has_address l r)
          (λ r. aside r || has_address (x ∷ l) r)
          (record q { timers = rest; active_timers = active }) (λ r h. ground (arith, h)) z,
    )

-- The entries of a synced queue have different addresses.
abbrev pub IsApart : List Pair → Type 0
IsApart [] = Unit {0}
IsApart (x ∷ l) = (has_address l x.second ≡ false) × IsApart l

not-has_address :
    (p : ℕ) (l : List Pair) → ((w : ℕ) → mem (pair w p) l ≡ false) → has_address l p ≡ false
unfolding mem
not-has_address p [] h = refl
not-has_address p (x ∷ l) h =
    let rest = not-has_address p l (λ w. ground (arith, h w)) in ground (arith, rest, h x.first)

synced-IsApart :
    (aside : ℕ → Bool) (q : TimerQueue) (l : List Pair)
    → IsSynced aside q
    → IsSorted l
    → ((w p : ℕ) → mem (pair w p) l ≡ true → mem (pair w p) q.timers ≡ true)
    → IsApart l
unfolding mem
synced-IsApart aside q [] v s sub = tt
synced-IsApart aside q (x ∷ l) v s sub = (
  not-has_address x.second l (λ w. elim (Bool-cases (mem (pair w x.second) l)) [
    | inl there ↦
        let (t, f, e, a) = v.forward w x.second (sub w x.second (ground (arith, there))) in
        let (u, g, e', a') = v.forward x.first x.second (sub x.first x.second (ground arith)) in
        let same : t ≡ u = grind (arith, f, g) in
        let at : w ≡ x.first = sym e ∙ ap (λ (x : Timer). x.expiration) same ∙ e' in
        absurd (grind (arith, at, there, not-mem-Above x l s.0))
    | inr out ↦ out
  ]),
  synced-IsApart aside q l v s.1 (λ w p h. sub w p (ground (arith, h))),
)

get_expired-erase_expired :
    (now : ℕ) (q r : TimerQueue)
    → length q.timers ≡ length q.active_timers
    → elim (from (pair now uintptr_max) q.timers) [ [] ↦ true | x ∷ l ↦ ltb now x.first ] ≡ true
    → erase_expired
        (before (pair now uintptr_max) q.timers)
        (record q { timers = from (pair now uintptr_max) q.timers })
      ≡ ok r
    → length r.timers ≡ length r.active_timers
    → get_expired now q ≡ ok (before (pair now uintptr_max) q.timers, r)
unfolding get_expired
get_expired-erase_expired now q r sizes later e sizes' =
    let a : (length q.timers == length q.active_timers) ≡ true = ground arith in
    let b : (length r.timers == length r.active_timers) ≡ true = ground arith in
    rw (a, later, e, b) refl

is_due :
    (w p now : ℕ) (b : Bool)
    → (b ≡ true → p < uintptr_max)
    → (b && is_less (pair w p) (pair now uintptr_max)) ≡ (b && leb w now)
is_due w p now true low = ground (arith, low refl)
is_due w p now false low = refl

is_late :
    (w p now : ℕ) (b : Bool)
    → (b ≡ true → p < uintptr_max)
    → (b && not (is_less (pair w p) (pair now uintptr_max))) ≡ (b && ltb now w)
is_late w p now true low = ground (arith, low refl)
is_late w p now false low = refl

-- What `getExpired` gives: the entries that are due, each timer of which stays alive.
abbrev pub Expires : ℕ → TimerQueue → Type 0
Expires now q =
    (expired : List Pair) × (active : List Pair) × (get_expired now q
      ≡ ok (
        expired,
        record q { timers = from (pair now uintptr_max) q.timers; active_timers = active },
      ))
    × ((w p : ℕ) → mem (pair w p) expired ≡ (mem (pair w p) q.timers && leb w now))
    × ((w p : ℕ)
        → mem (pair w p) (from (pair now uintptr_max) q.timers)
          ≡ (mem (pair w p) q.timers && ltb now w))
    × IsApart expired
    × IsSynced (has_address expired)
        (record q { timers = from (pair now uintptr_max) q.timers; active_timers = active })

-- In a queue whose sets agree with the memory, exactly the entries whose time is not later than now
-- leave the queue when it is read, no assertion fails, and their timers stay alive.
pub get_expired-due : (now : ℕ) (q : TimerQueue) → IsSynced (λ p. false) q → Expires now q
get_expired-due now q v =
    let z = pair now uintptr_max in
    let e = before z q.timers in
    let rest = from z q.timers in
    let (active, r, w) =
      erase_expired-IsSynced e rest (λ p. false) q
        (subst (λ l. IsSynced (λ p. false) (record q { timers = l }))
          (sym (before-append-from z q.timers)) v) in
    let low : (w p : ℕ) → mem (pair w p) q.timers ≡ true → p < uintptr_max =
      (λ w p h. (v.known p (v.forward w p h).0 (v.forward w p h).1).1) in
    let due : (w p : ℕ) → mem (pair w p) e ≡ (mem (pair w p) q.timers && leb w now) = (λ w p.
      mem-before (pair w p) z q.timers v.sorted
      ∙ is_due w p now (mem (pair w p) q.timers) (low w p)) in
    (
      e,
      active,
      get_expired-erase_expired now q (record q { timers = rest; active_timers = active }) v.sizes
          (from-later now q.timers low) r w.sizes,
      due,
      (λ w p.
          mem-from (pair w p) z q.timers v.sorted
          ∙ is_late w p now (mem (pair w p) q.timers) (low w p)),
      synced-IsApart (λ p. false) q e v (IsSorted-before z q.timers v.sorted)
          (λ w p h. ground (arith, h, due w p)),
      w,
    )
