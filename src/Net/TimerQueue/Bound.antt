-- ===== src/Net/TimerQueue/Bound.antt =====
-- The lower bound of a sentry in a sorted set.
use pp_d_scache.Base.{
  ℕ, ◌<◌, ◌≡◌, refl, inl, inr, true, not, ◌&&◌, List, [], ◌∷◌, ◌++◌, ltb, arith, Bool-cases,
}
use pp_d_scache.Base.PairSet.{Pair, mem, is_less, is_same, Above, IsSorted}
use pp_d_scache.Net.TimerQueue.{pair, uintptr_max, before, from}

pub before-append-from : (z : Pair) (l : List Pair) → before z l ++ from z l ≡ l
unfolding before from
before-append-from z [] = refl
before-append-from z (x ∷ l) = elim (Bool-cases (is_less x z)) [
  | inl less ↦ rw (less, before-append-from z l) refl
  | inr above ↦ rw above refl
]

pub less_of-Above : (x y : Pair) (l : List Pair) → Above y l → mem x l ≡ true → is_less y x ≡ true
unfolding mem
less_of-Above x y [] a m = absurd (ground (arith, m))
less_of-Above x y (z ∷ l) a m = elim (Bool-cases (is_same x z)) [
  | inl here ↦ ground (arith, here, a.0)
  | inr away ↦ less_of-Above x y l a.1 (ground (arith, m, away))
]

pub mem-before :
    (x z : Pair) (l : List Pair) → IsSorted l → mem x (before z l) ≡ (mem x l && is_less x z)
unfolding mem before
mem-before x z [] s = refl
mem-before x z (y ∷ l) s = elim (Bool-cases (mem x l)) [
  | inl in' ↦ ground (arith, less_of-Above x y l s.0 in', mem-before x z l s.1)
  | inr out ↦ ground (arith, out, mem-before x z l s.1)
]

pub mem-from :
    (x z : Pair) (l : List Pair) → IsSorted l → mem x (from z l) ≡ (mem x l && not (is_less x z))
unfolding mem from
mem-from x z [] s = refl
mem-from x z (y ∷ l) s = elim (Bool-cases (mem x l)) [
  | inl in' ↦ ground (arith, less_of-Above x y l s.0 in', mem-from x z l s.1)
  | inr out ↦ ground (arith, out, mem-from x z l s.1)
]

-- The first entry from the sentry on is later than now.
pub from-later :
    (now : ℕ) (l : List Pair)
    → ((w p : ℕ) → mem (pair w p) l ≡ true → p < uintptr_max)
    → elim (from (pair now uintptr_max) l) [ [] ↦ true | x ∷ l ↦ ltb now x.first ] ≡ true
unfolding from mem
from-later now [] low = refl
from-later now (x ∷ l) low = elim (Bool-cases (is_less x (pair now uintptr_max))) [
  | inl due ↦ rw due (from-later now l (λ w p h. low w p (ground (arith, h))))
  | inr later ↦ rw later (ground (arith, later, low x.first x.second (ground arith)))
]

pub Above-before : (y z : Pair) (l : List Pair) → Above y l → Above y (before z l)
unfolding before
Above-before y z [] a = tt
Above-before y z (x ∷ l) a = elim (Bool-cases (is_less x z)) [
  | inl less ↦ rw less (a.0, Above-before y z l a.1)
  | inr above ↦ rw above tt
]

pub IsSorted-before : (z : Pair) (l : List Pair) → IsSorted l → IsSorted (before z l)
unfolding before
IsSorted-before z [] s = tt
IsSorted-before z (x ∷ l) s = elim (Bool-cases (is_less x z)) [
  | inl less ↦ rw less (Above-before x z l s.0, IsSorted-before z l s.1)
  | inr above ↦ rw above tt
]
