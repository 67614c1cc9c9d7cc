-- ===== src/Net/Buffer/Ints.antt =====
-- The integers in network order of master/net/Buffer.h, over master/net/Endian.h. An integer of `k`
-- bytes is its bit pattern, a number below 256 ^ k, so a negative one is its two's complement.
use pp_d_scache.Base.{
  ℕ, zero, suc, ◌+◌, ◌*◌, ◌/◌, ◌%◌, ◌^◌, [], ◌∷◌, take, leb, Result, ok, ◌>>=◌, ◌>>◌,
}
use pp_d_scache.Base.Text.{Str}
use pp_d_scache.Net.Buffer.{Buffer, append, prepend, retrieve, content, require, readable_bytes}

-- int8_t, int16_t, int32_t and int64_t.
pub data IntSize : Type 0 where
  int8 int16 int32 int64 : IntSize

-- `sizeof`
abbrev pub size_of : IntSize → ℕ
size_of int8 = 1
size_of int16 = 2
size_of int32 = 4
size_of int64 = 8

-- The bytes of `hostToNetwork…(x)` in memory, the most significant one first.
unfoldable pub host_to_network : ℕ → ℕ → Str
host_to_network zero x = []
host_to_network (suc k) x = (x / 256 ^ k % 256) ∷ host_to_network k x

-- `networkToHost…` of the bytes that were copied from memory.
unfoldable pub network_to_host : ℕ → Str → ℕ
network_to_host acc [] = acc
network_to_host acc (c ∷ s) = network_to_host (acc * 256 + c) s

-- `appendInt64`, `appendInt32`, `appendInt16` and `appendInt8`.
unfoldable pub append_int : IntSize → ℕ → Buffer → Result Buffer
append_int w x b = append (host_to_network (size_of w) x) b

unfoldable pub prepend_int : IntSize → ℕ → Buffer → Result Buffer
prepend_int w x b = prepend (host_to_network (size_of w) x) b

-- `peekInt…`: the assertion, and the bytes of the integer.
unfoldable pub peek_int : IntSize → Buffer → Result ℕ
peek_int w b = do
  require (leb (size_of w) (readable_bytes b))
  ok (network_to_host 0 (take (size_of w) (content b)))

-- `retrieveInt…`
unfoldable pub retrieve_int : IntSize → Buffer → Result Buffer
retrieve_int w b = retrieve (size_of w) b

unfoldable pub read_int : IntSize → Buffer → Result (ℕ × Buffer)
read_int w b = do result ← peek_int w b; b' ← retrieve_int w b; ok (result, b')
