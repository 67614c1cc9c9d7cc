-- ===== src/Base/Text.antt =====
-- `std::string` as its bytes, with the operations of the standard library that the program uses:
-- `substr`, `stoi`, `==` and `+`.
use Prim.Native.Char.{code}
use Prim.Native.String.{String}
use Prim.Native.Nat.{ℕ, ◌+◌, ◌-◌, ◌*◌, ◌/◌, ◌%◌, ◌^◌, ◌<◌}
use mathlib.Core.Bool.{Bool, true, false, ◌&&◌, ◌||◌}
use mathlib.Core.List.{List, [], ◌∷◌, ◌++◌}
use mathlib.Core.Path.{◌≡◌, refl, ap, ◌∙◌}
use native.Mathlib.Decide.{ℕ_discrete}
use native.Mathlib.Omega.{arith}
use pp_d_scache.Base.Faults.{Result, ok, err, ◌>>=◌, out_of_range, invalid_argument}
use pp_d_scache.Base.Int.{ℤ, pos, negsuc}
use pp_d_scache.Base.Lists.{length, take, drop, length-append, take-append, drop-append}
use pp_d_scache.Base.Tests.{ltb, leb, ◌==◌, if◌then◌else◌}

abbrev pub Str : Type 0
Str = List ℕ

abbrev pub codes : String → Str
codes String.[] = []
codes (String.◌∷◌ c s) = code c ∷ codes s

pub Str-discrete : Discrete Str
Str-discrete = hlevel ℕ_discrete

abbrev pub str_eq : Str → Str → Bool
str_eq [] [] = true
str_eq (a ∷ s) (b ∷ t) = a == b && str_eq s t
str_eq _ _ = false

pub str_eq_refl : (s : Str) → str_eq s s ≡ true
str_eq_refl [] = refl
str_eq_refl (a ∷ s) = ground (arith, str_eq_refl s)

-- `s.substr(p, n)` throws where `p` lies behind the end, and stops at the end.
unfoldable pub substr : ℕ → ℕ → Str → Result Str
substr p n s = if leb p (length s) then ok (take n (drop p s)) else err out_of_range

abbrev pub is_space : ℕ → Bool
is_space c = c == 32 || (leb 9 c && leb c 13)

abbrev pub is_digit : ℕ → Bool
is_digit c = leb 48 c && leb c 57

unfoldable pub skip_spaces : Str → Str
skip_spaces [] = []
skip_spaces (c ∷ s) = if is_space c then skip_spaces s else c ∷ s

-- The value of the leading digits, after a number that was read already.
unfoldable pub read_digits : ℕ → Str → ℕ
read_digits n [] = n
read_digits n (c ∷ s) =
    let rest = read_digits (n * 10 + (c - 48)) s in if is_digit c then rest else n

-- A number needs a digit.
unfoldable pub read_number : Str → Result ℕ
unfolding read_digits
read_number [] = err invalid_argument
read_number (c ∷ s) = if is_digit c then ok (read_digits 0 (c ∷ s)) else err invalid_argument

unfoldable pub read_signed : Str → Result ℤ
unfolding read_number
read_signed [] = err invalid_argument
read_signed (c ∷ s) =
    if c == b'-'
    then (do
      n ← read_number s
      if leb n (2 ^ 31) then ok (if n == 0 then pos 0 else negsuc (n - 1)) else err out_of_range)
    else (do
      n ← read_number (if c == b'+' then s else c ∷ s)
      if ltb n (2 ^ 31) then ok (pos n) else err out_of_range)

-- `std::stoi(s)`: leading spaces, a sign, and digits up to the first other character.
unfoldable pub stoi : Str → Result ℤ
unfolding skip_spaces read_signed
stoi s = read_signed (skip_spaces s)

abbrev pub digit : ℕ → ℕ
digit n = 48 + n % 10

-- Decimal fields of two and of five characters, with leading zeros.
abbrev pub digits_2 : ℕ → Str
digits_2 n = digit (n / 10) ∷ digit n ∷ []

abbrev pub digits_5 : ℕ → Str
digits_5 n = digit (n / 10000) ∷ digit (n / 1000) ∷ digit (n / 100) ∷ digit (n / 10) ∷ digit n ∷ []

digit_tests : (d : ℕ) → (is_digit (digit d) ≡ true) × (is_space (digit d) ≡ false)
digit_tests d = ground arith

read_digits-digit :
    (n d : ℕ) (s : Str) → read_digits n (digit d ∷ s) ≡ read_digits (n * 10 + d % 10) s
unfolding read_digits
read_digits-digit n d s = ground (
  arith,
  ap (λ (x : ℕ). read_digits (n * 10 + x) s) (let e : digit d - 48 ≡ d % 10 = omega arith in e),
)

-- A field of digits reads as the number that they write.
stoi-digit :
    (d : ℕ) (s : Str)
    → read_digits 0 (digit d ∷ s) < 2 ^ 31
    → stoi (digit d ∷ s) ≡ ok (pos (read_digits 0 (digit d ∷ s)))
unfolding skip_spaces read_signed read_number stoi
stoi-digit d s h = ground (arith, digit_tests d)

read_digits-nil : (n : ℕ) → read_digits n [] ≡ n
unfolding read_digits
read_digits-nil n = refl

read_digits-digits_2 : (n : ℕ) → n < 100 → read_digits 0 (digits_2 n) ≡ n
read_digits-digits_2 n h = rw (read_digits-digit, read_digits-digit, read_digits-nil) (omega arith)

read_digits-digits_5 : (n : ℕ) → n < 100000 → read_digits 0 (digits_5 n) ≡ n
read_digits-digits_5 n h =
    rw
      (
        read_digits-digit, read_digits-digit, read_digits-digit, read_digits-digit,
        read_digits-digit, read_digits-nil,
      )
      (omega arith)

pub stoi-digits_2 : (n : ℕ) → n < 100 → stoi (digits_2 n) ≡ ok (pos n)
stoi-digits_2 n h =
    let e = read_digits-digits_2 n h in
    stoi-digit (n / 10) (digit n ∷ []) (omega arith) ∙ ap (λ x. ok (pos x)) e

pub stoi-digits_5 : (n : ℕ) → n < 100000 → stoi (digits_5 n) ≡ ok (pos n)
stoi-digits_5 n h =
    let e = read_digits-digits_5 n h in
    stoi-digit (n / 10000) _ (omega arith) ∙ ap (λ x. ok (pos x)) e

-- A string that starts with `before` is cut behind it.
pub substr-append :
    (p n : ℕ) (before s : Str) → length before ≡ p → substr p n (before ++ s) ≡ ok (take n s)
unfolding substr
substr-append p n before s h =
    ground (arith, length-append before s, ap (λ (t : Str). take n t) (drop-append p before s h))

pub substr-field :
    (p n : ℕ) (before s after : Str)
    → length before ≡ p
    → length s ≡ n
    → substr p n (before ++ (s ++ after)) ≡ ok s
substr-field p n before s after h k =
    substr-append p n before (s ++ after) h ∙ ap ok (take-append n s after k)
