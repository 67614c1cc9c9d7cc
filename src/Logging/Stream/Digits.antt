-- ===== src/Logging/Stream/Digits.antt =====
-- The loop over the digits ends, and writes the number.
use pp_d_scache.Base.{
  ℕ, zero, suc, ◌+◌, ◌-◌, ◌*◌, ◌/◌, ◌%◌, ◌^◌, ◌≡◌, ◌≤◌, ◌<◌, refl, ap, sym, ◌∙◌, subst, Bool, ◌&&◌,
  ◌==◌, Bool-cases, true, false, [], ◌∷◌, ◌++◌, Option, none, some, ltb, if◌then◌else◌, ok, length,
  get_elem?, arith, length-append, All,
}
use mathlib.Core.Logic.{◌⊎◌, inl, inr}
use native.Mathlib.Nat.{
  mod-lt, mod-add-div, pow-suc, pow-zero, div-lt_self, div-lt_iff_lt-mul, zero-div,
}
use pp_d_scache.Base.Int.{ℤ, pos, negsuc}
use pp_d_scache.Base.Text.{Str, read_digits, is_digit}
use pp_d_scache.Logging.Stream.{digits_hex, zero_at, convert_loop, reverse, convert, convert_hex}

-- The number whose digits stand in the text, the last one first.
abbrev pub value : (ℕ → ℕ) → ℕ → Str → ℕ
value digit_of base [] = 0
value digit_of base (c ∷ s) = digit_of c + base * value digit_of base s

-- A table of digits and its reverse; `valid` holds of each digit.
pub record IsTable (valid : ℕ → Bool) (digit_at : ℕ → Option ℕ) (base : ℕ) (digit_of : ℕ → ℕ)
    : Type 0 where
  pub large : 1 < base
  pub found :
      (d : ℕ) → d < base → (c : ℕ) × (digit_at d ≡ some c) × (digit_of c ≡ d) × (valid c ≡ true)

ℕ-cases : (n : ℕ) → (n ≡ 0) ⊎ ((j : ℕ) × (n ≡ suc j))
ℕ-cases zero = inl refl
ℕ-cases (suc j) = inr (j, refl)

convert_loop-last :
    (digit_at : ℕ → Option ℕ) (base fuel i c : ℕ)
    → digit_at (i % base) ≡ some c
    → i / base ≡ 0
    → convert_loop digit_at base (suc fuel) i ≡ ok (c ∷ [])
unfolding convert_loop
convert_loop-last digit_at base fuel i c f q = rw (f, q) refl

convert_loop-more :
    (digit_at : ℕ → Option ℕ) (base fuel i c j : ℕ) (s : Str)
    → digit_at (i % base) ≡ some c
    → i / base ≡ suc j
    → convert_loop digit_at base fuel (suc j) ≡ ok s
    → convert_loop digit_at base (suc fuel) i ≡ ok (c ∷ s)
unfolding convert_loop
convert_loop-more digit_at base fuel i c j s f q g = rw (f, q, g) refl

quotient_less : (base i j : ℕ) → 1 < base → i / base ≡ suc j → suc j < i
quotient_less base i j h q = elim (ℕ-cases i) [
  | inl z ↦
      absurd
        (let e : suc j ≡ 0 = sym q ∙ ap (λ (x : ℕ). x / base) z ∙ zero-div base in omega (arith, e))
  | inr (k, e) ↦
      let less : i / base < i = div-lt_self (omega (arith, e)) h in omega (arith, q, less)
]

quotient_below : (base i k : ℕ) → 1 < base → i < base ^ suc k → i / base < base ^ k
quotient_below base i k h low =
    (div-lt_iff_lt-mul (omega (arith, h))).1 (subst (λ (x : ℕ). i < x) (pow-suc base k) low)

-- Enough fuel is given, and the text has the value of the number, one digit at least and no digit
-- more than the number needs.
pub convert_loop-value :
    (valid : ℕ → Bool) (digit_at : ℕ → Option ℕ) (base : ℕ) (digit_of : ℕ → ℕ) (fuel i : ℕ)
    → IsTable valid digit_at base digit_of
    → i < fuel
    → (s : Str) × (convert_loop digit_at base fuel i ≡ ok s)
      × (value digit_of base s ≡ i)
      × All (λ c. valid c ≡ true) s
      × (1 ≤ length s)
      × ((k : ℕ) → i < base ^ suc k → length s ≤ suc k)
convert_loop-value valid digit_at base digit_of zero i t h = absurd (omega arith)
convert_loop-value valid digit_at base digit_of (suc fuel) i t h =
    let (c, f, e, a) = t.found (i % base) (mod-lt i (omega (arith, t.large))) in
    let whole : i % base + base * (i / base) ≡ i = mod-add-div i base in
    elim (ℕ-cases (i / base)) [
      | inl q ↦ (
        c ∷ [],
        convert_loop-last digit_at base fuel i c f q,
        ap (λ (x : ℕ). digit_of c + x) (ap (λ (x : ℕ). base * x) (sym q))
            ∙ ap (λ (x : ℕ). x + base * (i / base)) e
            ∙ whole,
        (a, tt),
        omega arith,
        λ k low. omega arith,
      )
      | inr (j, q) ↦
          let less : suc j < i = quotient_less base i j t.large q in
          let (s, g, v, l, some_digit, short) =
            convert_loop-value valid digit_at base digit_of fuel (suc j) t
              (omega (arith, less, h)) in
          (
            c ∷ s,
            convert_loop-more digit_at base fuel i c j s f q g,
            ap (λ (x : ℕ). digit_of c + base * x) (v ∙ sym q)
                ∙ ap (λ (x : ℕ). x + base * (i / base)) e
                ∙ whole,
            (a, l),
            omega arith,
            λ k low. elim (ℕ-cases k) [
              | inl z ↦ absurd (
                  let b : base ^ k ≡ 1 = ap (λ (x : ℕ). base ^ x) z ∙ pow-zero base in
                  omega (arith, b, q, quotient_below base i k t.large low))
              | inr (k', e') ↦
                  let short' : length s ≤ suc k' = short k' (
                    subst (λ (x : ℕ). suc j < base ^ x) e'
                      (subst (λ (x : ℕ). x < base ^ k) q (quotient_below base i k t.large low))) in
                  omega (arith, short', e')
            ],
          )
    ]

-- A table is checked digit by digit.
abbrev is_found : (ℕ → Bool) → (ℕ → ℕ) → ℕ → Option ℕ → Bool
is_found valid digit_of d none = false
is_found valid digit_of d (some c) = digit_of c == d && valid c

abbrev all_below : (ℕ → Bool) → ℕ → Bool
all_below test zero = true
all_below test (suc n) = test n && all_below test n

below : (test : ℕ → Bool) (n d : ℕ) → all_below test n ≡ true → d < n → test d ≡ true
below test zero d h l = absurd (omega arith)
below test (suc n) d h l = elim (Bool-cases (d == n)) [
  | inl here ↦ let e : d ≡ n = ground arith in rw e (ground (arith, h))
  | inr away ↦ below test n d (ground (arith, h)) (ground arith)
]

checked :
    (valid : ℕ → Bool) (digit_of : ℕ → ℕ) (d : ℕ) (o : Option ℕ)
    → is_found valid digit_of d o ≡ true
    → (c : ℕ) × (o ≡ some c) × (digit_of c ≡ d) × (valid c ≡ true)
checked valid digit_of d none h = absurd (ground (arith, h))
checked valid digit_of d (some c) h = (c, refl, ground (arith, h), ground (arith, h))

digits-IsTable : (negative : Bool) → IsTable is_digit (zero_at negative) 10 (λ c. c - 48)
digits-IsTable negative = record {
  large = omega arith;
  found = λ d l.
      checked is_digit (λ c. c - 48) d (zero_at negative d)
        (below (λ d. is_found is_digit (λ c. c - 48) d (zero_at negative d)) 10 d (go negative) l);
}
  where
    go :
        (negative : Bool)
        → all_below (λ d. is_found is_digit (λ c. c - 48) d (zero_at negative d)) 10 ≡ true
    go true = refl
    go false = refl

abbrev pub hex_digit_of : ℕ → ℕ
hex_digit_of c = if ltb c 58 then c - 48 else c - 55

hex-IsTable : IsTable (λ c. true) (get_elem? digits_hex) 16 hex_digit_of
hex-IsTable = record {
  large = omega arith;
  found = λ d l.
      checked (λ c. true) hex_digit_of d (get_elem? digits_hex d)
        (below (λ d. is_found (λ c. true) hex_digit_of d (get_elem? digits_hex d)) 16 d refl l);
}

read_digits-append :
    (n : ℕ) (s t : Str)
    → All (λ c. is_digit c ≡ true) s
    → read_digits n (s ++ t) ≡ read_digits (read_digits n s) t
unfolding read_digits
read_digits-append n [] t a = refl
read_digits-append n (c ∷ s) t a = rw a.0 (read_digits-append (n * 10 + (c - 48)) s t a.1)

All-append : (P : ℕ → Type 0) (s t : Str) → All P s → All P t → All P (s ++ t)
All-append P [] t a b = b
All-append P (c ∷ s) t a b = (a.0, All-append P s t a.1 b)

All-reverse : (P : ℕ → Type 0) (s : Str) → All P s → All P (reverse s)
All-reverse P [] a = tt
All-reverse P (c ∷ s) a = All-append P (reverse s) (c ∷ []) (All-reverse P s a.1) (a.0, tt)

read_digits-reverse :
    (s : Str)
    → All (λ c. is_digit c ≡ true) s
    → read_digits 0 (reverse s) ≡ value (λ c. c - 48) 10 s
unfolding read_digits
read_digits-reverse [] a = refl
read_digits-reverse (c ∷ s) a =
    read_digits-append 0 (reverse s) (c ∷ []) (All-reverse (λ c. is_digit c ≡ true) s a.1)
    ∙ rw a.0 (omega (arith, read_digits-reverse s a.1))

length-reverse : (s : Str) → length (reverse s) ≡ length s
length-reverse [] = refl
length-reverse (c ∷ s) = omega (arith, length-append (reverse s) (c ∷ []), length-reverse s)

-- The text of a number in decimal digits, one at least and no more than the number needs.
pub record IsDecimal (n : ℕ) (s : Str) : Type 0 where
  pub all_digits : All (λ c. is_digit c ≡ true) s
  pub valued : read_digits 0 s ≡ n
  pub not_empty : 1 ≤ length s
  pub shortest : (k : ℕ) → n < 10 ^ suc k → length s ≤ suc k

-- The text of a number, with its sign.
abbrev pub Writes : ℤ → Str → Type 0
Writes (pos n) s = IsDecimal n s
Writes (negsuc n) s = (t : Str) × (s ≡ b'-' ∷ t) × IsDecimal (suc n) t

reverse-IsDecimal :
    (n : ℕ) (s : Str)
    → value (λ c. c - 48) 10 s ≡ n
    → All (λ c. is_digit c ≡ true) s
    → 1 ≤ length s
    → ((k : ℕ) → n < 10 ^ suc k → length s ≤ suc k)
    → IsDecimal n (reverse s)
reverse-IsDecimal n s v a some_digit short = record {
  all_digits = All-reverse (λ c. is_digit c ≡ true) s a;
  valued = read_digits-reverse s a ∙ v;
  not_empty = omega (arith, length-reverse s, some_digit);
  shortest = λ k low. (let l = short k low in omega (arith, length-reverse s, l));
}

-- The numbers of the integer types, which have at most 64 bits.
abbrev pub Is64 : ℤ → Type 0
Is64 (pos n) = n < 2 ^ 64
Is64 (negsuc n) = n < 2 ^ 63

reverse-last : (s : Str) (c : ℕ) → reverse (s ++ (c ∷ [])) ≡ c ∷ reverse s
reverse-last [] c = refl
reverse-last (x ∷ s) c = ap (λ t. t ++ (x ∷ [])) (reverse-last s c)

-- `convert` ends on every number and writes its sign and its decimal digits, one digit at least and
-- none before the first that the number needs, from which the number is read again, in at most 20
-- characters if the number has 64 bits.
pub convert-Writes :
    (v : ℤ) → (s : Str) × (convert v ≡ ok s) × Writes v s × (Is64 v → length s ≤ 20)
unfolding convert
convert-Writes (pos n) =
    let (s, e, v, a, some_digit, short) =
      convert_loop-value is_digit (zero_at false) 10 (λ c. c - 48) (suc n) n (digits-IsTable false)
        (omega arith) in
    (
      reverse s,
      rw e refl,
      reverse-IsDecimal n s v a some_digit short,
      λ h. omega (arith, length-reverse s, short 19 (omega (arith, h))),
    )
convert-Writes (negsuc n) =
    let (s, e, v, a, some_digit, short) =
      convert_loop-value is_digit (zero_at true) 10 (λ c. c - 48) (suc (suc n)) (suc n)
        (digits-IsTable true) (omega arith) in
    (
      reverse (s ++ (b'-' ∷ [])),
      rw e refl,
      (reverse s, reverse-last s b'-', reverse-IsDecimal (suc n) s v a some_digit short),
      λ h. omega (
        arith,
        length-reverse (s ++ (b'-' ∷ [])),
        length-append s (b'-' ∷ []),
        short 18 (omega (arith, h)),
      ),
    )

-- `convertHex` ends on every number and writes its digits in base 16, the first one first, in at most
-- 16 characters for an address of 64 bits.
pub convert_hex-value :
    (n : ℕ)
    → (s : Str) × (convert_hex n ≡ ok (reverse s))
      × (value hex_digit_of 16 s ≡ n)
      × (n < 2 ^ 64 → length (reverse s) ≤ 16)
unfolding convert_hex
convert_hex-value n =
    let (s, e, v, a, some_digit, short) =
      convert_loop-value (λ c. true) (get_elem? digits_hex) 16 hex_digit_of (suc n) n hex-IsTable
        (omega arith) in
    (s, rw e refl, v, λ h. omega (arith, length-reverse s, short 15 (omega (arith, h))))
