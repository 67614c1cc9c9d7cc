-- ===== src/Logging/Stream/Room.antt =====
-- The buffer of a stream never overflows, and keeps what it has.
use pp_d_scache.Base.{
  ◌≡◌, ◌≤◌, ◌<◌, ◌^◌, refl, ap, sym, ◌∙◌, inl, inr, true, List, [], ◌∷◌, ◌++◌, none, some, leb, ltb,
  if◌then◌else◌, ok, length, arith, leb→le, length-append, All, Bool-cases,
}
use mathlib.Core.List.{append-nil, append_assoc}
use pp_d_scache.Base.Int.{ℤ}
use pp_d_scache.Base.Text.{Str, codes}
use pp_d_scache.Logging.Stream.{
  FixedBuffer, avail, append, write, format_integer, format_pointer, format_double, Item, boolean,
  integer, floating, pointer, character, c_string, text, put, put_all, max_numeric_size, reverse,
}
use pp_d_scache.Logging.Stream.Digits.{Writes, Is64, convert-Writes, convert_hex-value}

-- The bytes stay within the size of the buffer.
abbrev pub IsWithin : FixedBuffer → Type 0
IsWithin b = length b.bytes ≤ b.size

-- A buffer with room for any number takes the text of the number, and one without is left as it is.
pub format_integer-text :
    (v : ℤ) (b : FixedBuffer)
    → Is64 v
    → (s : Str) × Writes v s
      × (format_integer v b
          ≡ ok (if leb max_numeric_size (avail b) then record b { bytes = b.bytes ++ s } else b))
unfolding format_integer write
format_integer-text v b h =
    let (s, e, w, short) = convert-Writes v in
    let l = short h in
    (
      s,
      w,
      elim (Bool-cases (leb max_numeric_size (avail b))) [
        | inl room ↦
            let fits : ltb (length s) (avail b) ≡ true = ground (arith, l, room) in
            rw (room, e, fits) refl
        | inr full ↦ rw full refl
      ],
    )

-- The items whose numbers fit in the types of `<<`, where `snprintf` writes less than 32 characters.
abbrev pub Fits : Item → Type 0
Fits (integer v) = Is64 v
Fits (floating s) = length s < max_numeric_size
Fits (pointer p) = p < 2 ^ 64
Fits _ = Unit {0}

-- The buffer has grown at its end, within its size.
abbrev pub Grows : FixedBuffer → FixedBuffer → Type 0
Grows b r = IsWithin r × (r.size ≡ b.size) × ((s : Str) × (r.bytes ≡ b.bytes ++ s))

Grows-refl : (b : FixedBuffer) → IsWithin b → Grows b b
Grows-refl b h = (h, refl, ([], sym (append-nil b.bytes)))

append-Grows : (s : Str) (b : FixedBuffer) → IsWithin b → Grows b (append s b)
unfolding append
append-Grows s b h = elim (Bool-cases (ltb (length s) (avail b))) [
  | inl room ↦ rw room (ground (arith, length-append b.bytes s, room), refl, (s, refl))
  | inr full ↦ rw full (Grows-refl b h)
]

-- A numeric text of less than 32 characters is written if there is room for 32.
numeric-Grows :
    (s : Str) (b : FixedBuffer)
    → length s < max_numeric_size
    → IsWithin b
    → (r : FixedBuffer) × ((if leb max_numeric_size (avail b) then write s b else ok b) ≡ ok r)
      × Grows b r
unfolding write
numeric-Grows s b l h = elim (Bool-cases (leb max_numeric_size (avail b))) [
  | inl room ↦
      let fits : ltb (length s) (avail b) ≡ true = ground (arith, l, room) in
      (
        record b { bytes = b.bytes ++ s },
        rw (room, fits) refl,
        (
          omega (arith, length-append b.bytes s, leb→le max_numeric_size (avail b) room, l, h),
          refl,
          (s, refl),
        ),
      )
  | inr full ↦ (b, rw full refl, Grows-refl b h)
]

put-Grows :
    (x : Item) (b : FixedBuffer)
    → Fits x
    → IsWithin b
    → (r : FixedBuffer) × (put x b ≡ ok r) × Grows b r
unfolding put format_pointer format_integer format_double
put-Grows (boolean v) b f h = (
  append (if v then codes "1" else codes "0") b,
  refl,
  append-Grows (if v then codes "1" else codes "0") b h,
)
put-Grows (integer v) b f h =
    let (s, e, w, short) = convert-Writes v in
    let (r, e', g) = numeric-Grows s b (let l = short f in omega (arith, l)) h in (r, rw e e', g)
put-Grows (floating s) b f h = numeric-Grows s b f h
put-Grows (pointer p) b f h =
    let (s, e, v, short) = convert_hex-value p in
    let (r, e', g) =
      numeric-Grows (codes "0x" ++ reverse s) b (let l = short f in omega (arith, l)) h in
    (r, rw e e', g)
put-Grows (character c) b f h = (append (c ∷ []) b, refl, append-Grows (c ∷ []) b h)
put-Grows (c_string none) b f h =
    (append (codes "(null)") b, refl, append-Grows (codes "(null)") b h)
put-Grows (c_string (some s)) b f h = (append s b, refl, append-Grows s b h)
put-Grows (text s) b f h = (append s b, refl, append-Grows s b h)

-- Whatever is put into a buffer that is within its size, with integers of 64 bits and
-- floating numbers for which `snprintf` writes less than 32 characters, no write is behind
-- the end, and what the buffer had is kept, with new text behind it.
pub put_all-Grows :
    (l : List Item) (b : FixedBuffer)
    → All Fits l
    → IsWithin b
    → (r : FixedBuffer) × (put_all l b ≡ ok r) × Grows b r
unfolding put_all
put_all-Grows [] b f h = (b, refl, Grows-refl b h)
put_all-Grows (x ∷ l) b f h =
    let (r, e, (w, z, (s, t))) = put-Grows x b f.0 h in
    let (r', e', (w', z', (s', t'))) = put_all-Grows l r f.1 w in
    (r', rw e e', (w', z' ∙ z, (s ++ s', t' ∙ ap (λ x. x ++ s') t ∙ append_assoc b.bytes s s')))
