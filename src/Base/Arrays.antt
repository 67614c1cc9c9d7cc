-- ===== src/Base/Arrays.antt =====
-- Lists as vectors: what a position holds after a write, `push_back` and `pop_back`.
use Prim.Native.Nat.{ℕ, zero, suc, ◌-◌, ◌<◌}
use mathlib.Core.Path.{◌≡◌, refl}
use mathlib.Core.Bool.{◌&&◌}
use mathlib.Core.List.{List, [], ◌∷◌, ◌++◌}
use mathlib.Core.Option.{Option, none, some}
use native.Mathlib.Omega.{arith}
use pp_d_scache.Base.Lists.{length, get_elem?, set}
use pp_d_scache.Base.Tests.{ltb, ◌==◌, if◌then◌else◌}

module _ {ℓ} {A : Type ℓ} where
  -- The last element of an empty vector is undefined.
  abbrev pub back : List A → Option A
  back [] = none
  back (x ∷ []) = some x
  back (x ∷ y ∷ l) = back (y ∷ l)

  abbrev pub pop_back : List A → List A
  pop_back [] = []
  pop_back (x ∷ []) = []
  pop_back (x ∷ y ∷ l) = x ∷ pop_back (y ∷ l)

  pub get_elem?-set :
      (l : List A) (i j : ℕ) (v : A)
      → get_elem? (set l i v) j ≡ (if j == i && ltb i (length l) then some v else get_elem? l j)
  get_elem?-set [] i j v = ground arith
  get_elem?-set (x ∷ l) zero zero v = ground arith
  get_elem?-set (x ∷ l) zero (suc j) v = ground arith
  get_elem?-set (x ∷ l) (suc i) zero v = ground arith
  get_elem?-set (x ∷ l) (suc i) (suc j) v = ground (arith, get_elem?-set l i j v)

  pub get_elem?-push_back :
      (l : List A) (j : ℕ) (v : A)
      → get_elem? (l ++ (v ∷ [])) j ≡ (if j == length l then some v else get_elem? l j)
  get_elem?-push_back [] zero v = ground arith
  get_elem?-push_back [] (suc j) v = ground arith
  get_elem?-push_back (x ∷ l) zero v = ground arith
  get_elem?-push_back (x ∷ l) (suc j) v = ground (arith, get_elem?-push_back l j v)

  pub length-pop_back : (l : List A) → length (pop_back l) ≡ length l - 1
  length-pop_back [] = refl
  length-pop_back (x ∷ []) = refl
  length-pop_back (x ∷ y ∷ l) = omega (arith, length-pop_back (y ∷ l))

  pub get_elem?-pop_back :
      (l : List A) (j : ℕ)
      → get_elem? (pop_back l) j ≡ (if ltb (suc j) (length l) then get_elem? l j else none)
  get_elem?-pop_back [] j = ground arith
  get_elem?-pop_back (x ∷ []) zero = ground arith
  get_elem?-pop_back (x ∷ []) (suc j) = ground arith
  get_elem?-pop_back (x ∷ y ∷ l) zero = ground arith
  get_elem?-pop_back (x ∷ y ∷ l) (suc j) = ground (arith, get_elem?-pop_back (y ∷ l) j)

  pub back-get_elem? :
      (l : List A) → back l ≡ (if ltb 0 (length l) then get_elem? l (length l - 1) else none)
  back-get_elem? [] = ground arith
  back-get_elem? (x ∷ []) = ground arith
  back-get_elem? (x ∷ y ∷ l) = ground (arith, back-get_elem? (y ∷ l))

  pub get_elem?_bound : (l : List A) (i : ℕ) (x : A) → get_elem? l i ≡ some x → i < length l
  get_elem?_bound [] i x h = absurd (ground (arith, h))
  get_elem?_bound (y ∷ l) zero x h = ground arith
  get_elem?_bound (y ∷ l) (suc i) x h = let r = get_elem?_bound l i x h in omega (arith, r)
