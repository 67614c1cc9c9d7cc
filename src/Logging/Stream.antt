-- ===== src/Logging/Stream.antt =====
-- master/base/LogStream.h and LogStream.cc: numbers and text in a buffer of fixed size. `snprintf`,
-- which writes a `double`, is a parameter. A write behind the end of a buffer is undefined.
pub mod Digits
pub mod Room
mod Examples
use pp_d_scache.Base.{
  ℕ, zero, suc, ◌+◌, ◌-◌, ◌*◌, ◌/◌, ◌%◌, Bool, true, false, List, [], ◌∷◌, ◌++◌, Option, none, some,
  leb, ltb, not, if◌then◌else◌, Result, ok, err, ◌>>=◌, ◌>>◌, or_fault, undefined, length,
  get_elem?,
}
use pp_d_scache.Base.Int.{ℤ, pos, negsuc}
use pp_d_scache.Base.Text.{Str, codes}
use pp_d_scache.Net.Buffer.{require}

-- `FixedBuffer`: `bytes` is what stands before `cur_`.
pub record FixedBuffer : Type 0 where
  pub size : ℕ
  pub bytes : Str

abbrev pub small_buffer : ℕ
small_buffer = 4000

abbrev pub large_buffer : ℕ
large_buffer = 4000 * 1000

abbrev pub max_numeric_size : ℕ
max_numeric_size = 32

unfoldable pub init : ℕ → FixedBuffer
init size = record { size = size; bytes = [] }

abbrev pub avail : FixedBuffer → ℕ
avail b = b.size - length b.bytes

unfoldable pub append : Str → FixedBuffer → FixedBuffer
append buf b = if ltb (length buf) (avail b) then record b { bytes = b.bytes ++ buf } else b

unfoldable pub reset : FixedBuffer → FixedBuffer
reset b = record b { bytes = [] }

abbrev pub digits : Str
digits = codes "9876543210123456789"

abbrev pub digits_hex : Str
digits_hex = codes "0123456789ABCDEF"

-- `zero[lsd]`, where `lsd` has the sign of the value.
abbrev pub zero_at : Bool → ℕ → Option ℕ
zero_at negative lsd = get_elem? digits (if negative then 9 - lsd else 9 + lsd)

-- The loop of `convert` and `convertHex`, which writes the last digit first. It ends in fewer rounds
-- than the number says; fuel that ends is undefined.
unfoldable pub convert_loop : (ℕ → Option ℕ) → ℕ → ℕ → ℕ → Result Str
convert_loop digit_at base zero i = err undefined
convert_loop digit_at base (suc fuel) i = do
  c ← or_fault (digit_at (i % base)) undefined
  rest ← elim (i / base) [ zero ↦ ok [] | suc j ↦ convert_loop digit_at base fuel (suc j) ]
  ok (c ∷ rest)

abbrev pub reverse : Str → Str
reverse [] = []
reverse (c ∷ s) = reverse s ++ (c ∷ [])

-- The text of a number; the zero that ends it in the memory stands behind it.
unfoldable pub convert : ℤ → Result Str
convert (pos n) = do s ← convert_loop (zero_at false) 10 (suc n) n; ok (reverse s)
convert (negsuc n) = do
  s ← convert_loop (zero_at true) 10 (suc (suc n)) (suc n)
  ok (reverse (s ++ (b'-' ∷ [])))

unfoldable pub convert_hex : ℕ → Result Str
convert_hex value = do s ← convert_loop (get_elem? digits_hex) 16 (suc value) value; ok (reverse s)

-- A text that is written at `cur_`, with the zero behind it, and added.
unfoldable pub write : Str → FixedBuffer → Result FixedBuffer
write s b = do require (ltb (length s) (avail b)); ok (record b { bytes = b.bytes ++ s })

unfoldable pub format_integer : ℤ → FixedBuffer → Result FixedBuffer
format_integer v b = if leb max_numeric_size (avail b) then (do s ← convert v; write s b) else ok b

unfoldable pub format_pointer : ℕ → FixedBuffer → Result FixedBuffer
format_pointer p b =
    if leb max_numeric_size (avail b)
    then (do s ← convert_hex p; write (codes "0x" ++ s) b)
    else ok b

-- `snprintf` gives the text of the number, of which it writes at most 31 characters, and its length.
unfoldable pub format_double : Str → FixedBuffer → Result FixedBuffer
format_double text b = if leb max_numeric_size (avail b) then write text b else ok b

-- The values that `<<` takes; a null pointer is `none`, and a floating number is what `snprintf` writes
-- for it. A `float` is converted to `double`, and a `short` to `int`.
pub data Item : Type 0 where
  boolean : Bool → Item
  integer : ℤ → Item
  floating : Str → Item
  pointer : ℕ → Item
  character : ℕ → Item
  c_string : Option Str → Item
  text : Str → Item

unfoldable pub put : Item → FixedBuffer → Result FixedBuffer
put (boolean v) b = ok (append (if v then codes "1" else codes "0") b)
put (integer v) b = format_integer v b
put (floating s) b = format_double s b
put (pointer p) b = format_pointer p b
put (character c) b = ok (append (c ∷ []) b)
put (c_string none) b = ok (append (codes "(null)") b)
put (c_string (some s)) b = ok (append s b)
put (text s) b = ok (append s b)

unfoldable pub put_all : List Item → FixedBuffer → Result FixedBuffer
put_all [] b = ok b
put_all (x ∷ l) b = do b' ← put x b; put_all l b'
