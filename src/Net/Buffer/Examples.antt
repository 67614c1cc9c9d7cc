-- ===== src/Net/Buffer/Examples.antt =====
-- The theorems on the buffer at a small one: a prefix of eight bytes, three bytes of content, and room
-- for five more.
use pp_d_scache.Base.{◌≡◌, [], ◌++◌, some, none, replicate, arith, ok, ◌∷◌}
use pp_d_scache.Base.Text.{codes}
use pp_d_scache.Net.Buffer.{Buffer, bytes, failed, content, retrieve, read_fd}
use pp_d_scache.Net.Buffer.Content.{IsValid, Holds}
use pp_d_scache.Net.Buffer.Operations.{read_fd-Holds}
use pp_d_scache.Net.Buffer.Ints.{int16, append_int, read_int}
use pp_d_scache.Net.Buffer.RoundTrip.{read_int-append_int}

abbrev abc : Buffer
abc = record { buffer = replicate 8 0 ++ (codes "abc" ++ replicate 5 0); reader = 8; writer = 11 }

-- Two lines.
abbrev lines : Buffer
lines = record {
  buffer = replicate 8 0 ++ (97 ∷ 13 ∷ 10 ∷ 98 ∷ 13 ∷ 10 ∷ []);
  reader = 8;
  writer = 14;
}

abc-IsValid : IsValid abc
abc-IsValid = record { ordered = omega arith; within = omega arith; base = omega arith }

read_fd-Holds_example :
    ((b' : Buffer) × (read_fd (bytes (codes "0123456789")) abc ≡ ok (none, b'))
      × Holds b' (content abc ++ codes "0123456789"))
    × (read_fd (failed 11) abc ≡ ok (some 11, abc))
read_fd-Holds_example = read_fd-Holds (codes "0123456789") 11 abc abc-IsValid

read_int-append_int_example :
    (b1 b2 b3 : Buffer) × (append_int int16 513 abc ≡ ok b1)
    × (retrieve 3 b1 ≡ ok b2)
    × (read_int int16 b2 ≡ ok (513, b3))
    × Holds b3 []
read_int-append_int_example = read_int-append_int int16 513 abc abc-IsValid (omega arith)
