-- ===== src/Base/PairSet.antt =====
-- `std::set` of pairs of numbers, as the list of its elements in their order.
use Prim.Native.Nat.{ℕ, suc}
use mathlib.Core.Path.{◌≡◌, refl}
use mathlib.Core.Logic.{inl, inr}
use mathlib.Core.Bool.{Bool, true, false, ◌&&◌, ◌||◌}
use mathlib.Core.List.{List, [], ◌∷◌}
use native.Mathlib.Omega.{arith}
use pp_d_scache.Base.Lists.{length}
use pp_d_scache.Base.Tests.{ltb, ◌==◌, not, if◌then◌else◌, Bool-cases}

pub record Pair : Type 0 where
  pub first : ℕ
  pub second : ℕ

abbrev pub is_less : Pair → Pair → Bool
is_less x y = ltb x.first y.first || (x.first == y.first && ltb x.second y.second)

abbrev pub is_same : Pair → Pair → Bool
is_same x y = x.first == y.first && x.second == y.second

unfoldable pub mem : Pair → List Pair → Bool
mem x [] = false
mem x (y ∷ l) = is_same x y || mem x l

-- `insert`, which leaves a set that has the element as it is.
unfoldable pub insert : Pair → List Pair → List Pair
insert x [] = x ∷ []
insert x (y ∷ l) =
    let rest = insert x l in
    if is_less x y then x ∷ y ∷ l else if is_same x y then y ∷ l else y ∷ rest

-- `erase` of an element; the number it returns is 1 if the set has it, and 0 if not.
unfoldable pub erase : Pair → List Pair → List Pair
erase x [] = []
erase x (y ∷ l) = let rest = erase x l in if is_same x y then l else y ∷ rest

-- Every element of the list stands above `x`.
abbrev pub Above : Pair → List Pair → Type 0
Above x [] = Unit {0}
Above x (y ∷ l) = (is_less x y ≡ true) × Above x l

abbrev pub IsSorted : List Pair → Type 0
IsSorted [] = Unit {0}
IsSorted (x ∷ l) = Above x l × IsSorted l

Above-trans : (x y : Pair) (l : List Pair) → is_less x y ≡ true → Above y l → Above x l
Above-trans x y [] h a = tt
Above-trans x y (z ∷ l) h a = (ground (arith, a.0), Above-trans x y l h a.1)

pub not-mem-Above : (x : Pair) (l : List Pair) → Above x l → mem x l ≡ false
unfolding mem
not-mem-Above x [] a = refl
not-mem-Above x (y ∷ l) a = ground (arith, a.0, not-mem-Above x l a.1)

Above-insert : (z x : Pair) (l : List Pair) → is_less z x ≡ true → Above z l → Above z (insert x l)
unfolding insert
Above-insert z x [] h a = (h, tt)
Above-insert z x (y ∷ l) h a = ground (arith, a.0, a.1, Above-insert z x l h a.1)

pub IsSorted-insert : (x : Pair) (l : List Pair) → IsSorted l → IsSorted (insert x l)
unfolding insert
IsSorted-insert x [] s = (tt, tt)
IsSorted-insert x (y ∷ l) s = elim (Bool-cases (is_less x y)) [
  | inl below ↦ rw below ((below, Above-trans x y l below s.0), s)
  | inr other ↦ elim (Bool-cases (is_same x y)) [
    | inl here ↦ rw (other, here) s
    | inr above ↦ rw (other, above) (Above-insert y x l (ground arith) s.0, IsSorted-insert x l s.1)
  ]
]

Above-erase : (z x : Pair) (l : List Pair) → Above z l → Above z (erase x l)
unfolding erase
Above-erase z x [] a = tt
Above-erase z x (y ∷ l) a = ground (arith, a.0, a.1, Above-erase z x l a.1)

pub IsSorted-erase : (x : Pair) (l : List Pair) → IsSorted l → IsSorted (erase x l)
unfolding erase
IsSorted-erase x [] s = tt
IsSorted-erase x (y ∷ l) s = elim (Bool-cases (is_same x y)) [
  | inl here ↦ rw here s.1
  | inr other ↦ rw other (Above-erase y x l s.0, IsSorted-erase x l s.1)
]

pub mem-insert : (z x : Pair) (l : List Pair) → mem z (insert x l) ≡ (is_same z x || mem z l)
unfolding mem insert
mem-insert z x [] = refl
mem-insert z x (y ∷ l) = ground (arith, mem-insert z x l)

pub mem-erase :
    (z x : Pair) (l : List Pair) → IsSorted l → mem z (erase x l) ≡ (not (is_same z x) && mem z l)
unfolding mem erase
mem-erase z x [] s = ground arith
mem-erase z x (y ∷ l) s = ground (arith, mem-erase z x l s.1, not-mem-Above y l s.0, s.0)

pub length-insert :
    (x : Pair) (l : List Pair)
    → IsSorted l
    → length (insert x l) ≡ (if mem x l then length l else suc (length l))
unfolding mem insert
length-insert x [] s = refl
length-insert x (y ∷ l) s = elim (Bool-cases (is_less x y)) [
  | inl below ↦ ground (arith, not-mem-Above x l (Above-trans x y l below s.0))
  | inr other ↦ ground (arith, length-insert x l s.1)
]

pub length-erase :
    (x : Pair) (l : List Pair)
    → length l ≡ (if mem x l then suc (length (erase x l)) else length (erase x l))
unfolding mem erase
length-erase x [] = refl
length-erase x (y ∷ l) = ground (arith, length-erase x l)
