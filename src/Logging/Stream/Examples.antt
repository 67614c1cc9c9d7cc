-- ===== src/Logging/Stream/Examples.antt =====
-- The theorems on the stream at numbers and at a full buffer.
use pp_d_scache.Base.{◌≡◌, ◌≤◌, refl, true, List, [], ◌∷◌, none, ok, length, arith}
use pp_d_scache.Base.Int.{pos, negsuc}
use pp_d_scache.Base.Text.{Str, codes}
use pp_d_scache.Logging.Stream.{
  FixedBuffer, convert, convert_hex, convert_loop, Item, integer, floating, text, pointer, boolean,
  c_string, put_all,
}
use pp_d_scache.Logging.Stream.Digits.{Writes, Is64, convert-Writes}
use pp_d_scache.Logging.Stream.Room.{put_all-Grows, Grows}

min_int_text : convert (negsuc 2147483647) ≡ ok (codes "-2147483648")
unfolding convert convert_loop
min_int_text = refl

zero_text : convert (pos 0) ≡ ok (codes "0")
unfolding convert convert_loop
zero_text = refl

hex_text : convert_hex 48879 ≡ ok (codes "BEEF")
unfolding convert_hex convert_loop
hex_text = refl

convert-Writes_example :
    (s : Str) × (convert (negsuc 41) ≡ ok s)
    × Writes (negsuc 41) s
    × (Is64 (negsuc 41) → length s ≤ 20)
convert-Writes_example = convert-Writes (negsuc 41)

abbrev nearly_full : FixedBuffer
nearly_full = record { size = 60; bytes = codes "eight..." }

abbrev items : List Item
items =
    integer (pos 7)
    ∷ floating (codes "2.5e-07")
    ∷ pointer 48879
    ∷ boolean true
    ∷ c_string none
    ∷ text (codes "end")
    ∷ []

put_all-Grows_example : (r : FixedBuffer) × (put_all items nearly_full ≡ ok r) × Grows nearly_full r
put_all-Grows_example =
    put_all-Grows items nearly_full
      (omega arith, (omega arith, (omega arith, (tt, (tt, (tt, tt)))))) (omega arith)
