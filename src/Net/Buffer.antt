-- ===== src/Net/Buffer.antt =====
-- master/net/Buffer.h and Buffer.cc: `Buffer`, a vector of bytes with two indices. Bytes are numbers
-- below 256; `size_t` sums do not wrap at the sizes that a vector can have.
pub mod Content
pub mod Operations
pub mod Ints
pub mod Find
pub mod RoundTrip
mod Examples
use pp_d_scache.Base.{
  ℕ, zero, suc, ◌+◌, ◌-◌, ◌*◌, ◌/◌, ◌%◌, ◌^◌, Bool, true, false, ◌&&◌, List, [], ◌∷◌, ◌++◌, Option,
  none, some, length, take, drop, replicate, ltb, leb, ◌==◌, if◌then◌else◌, Result, ok, err, ◌>>=◌,
  ◌>>◌, undefined,
}
use pp_d_scache.Base.Text.{Str}

pub record Buffer : Type 0 where
  pub buffer : Str
  pub reader : ℕ
  pub writer : ℕ

-- kCheapPrepend
abbrev pub cheap_prepend : ℕ
cheap_prepend = 8

-- kInitialSize
abbrev pub initial_size : ℕ
initial_size = 1024

-- A failed `assert`.
abbrev pub require : Bool → Result (Unit {0})
require true = ok tt
require false = err undefined

unfoldable pub init : ℕ → Buffer
init size = record {
  buffer = replicate (cheap_prepend + size) 0;
  reader = cheap_prepend;
  writer = cheap_prepend;
}

abbrev pub readable_bytes : Buffer → ℕ
readable_bytes b = b.writer - b.reader

abbrev pub writable_bytes : Buffer → ℕ
writable_bytes b = length b.buffer - b.writer

abbrev pub prependable_bytes : Buffer → ℕ
prependable_bytes b = b.reader

-- The bytes from `peek()` up to `beginWrite()`.
unfoldable pub content : Buffer → Str
content b = drop b.reader (take b.writer b.buffer)

-- `std::search` for CRLF: its offset.
unfoldable pub search_crlf : Str → Option ℕ
search_crlf [] = none
search_crlf (a ∷ []) = none
search_crlf (a ∷ b ∷ s) =
    let rest = search_crlf (b ∷ s) in
    if a == 13 && b == 10 then some 0 else elim rest [ none ↦ none | some n ↦ some (suc n) ]

-- `findCRLF()`, as an offset from `peek()`.
unfoldable pub find_crlf : Buffer → Option ℕ
unfolding search_crlf content
find_crlf b = search_crlf (content b)

-- `findCRLF(start)`, as an offset from `start`, which is an offset from `peek()`.
unfoldable pub find_crlf_from : ℕ → Buffer → Result (Option ℕ)
unfolding search_crlf content
find_crlf_from start b = do
  require (leb start (readable_bytes b))
  ok (search_crlf (drop start (content b)))

-- `memchr` for a newline.
unfoldable pub search_eol : Str → Option ℕ
search_eol [] = none
search_eol (a ∷ s) =
    let rest = search_eol s in
    if a == 10 then some 0 else elim rest [ none ↦ none | some n ↦ some (suc n) ]

-- `findEOL()`, as an offset from `peek()`.
unfoldable pub find_eol : Buffer → Option ℕ
unfolding search_eol content
find_eol b = search_eol (content b)

-- `findEOL(start)`, as an offset from `start`, which is an offset from `peek()`.
unfoldable pub find_eol_from : ℕ → Buffer → Result (Option ℕ)
unfolding search_eol content
find_eol_from start b = do
  require (leb start (readable_bytes b))
  ok (search_eol (drop start (content b)))

abbrev pub retrieve_all : Buffer → Buffer
retrieve_all b = record b { reader = cheap_prepend; writer = cheap_prepend }

unfoldable pub retrieve : ℕ → Buffer → Result Buffer
retrieve len b = do
  require (leb len (readable_bytes b))
  ok (if ltb len (readable_bytes b) then record b { reader = b.reader + len } else retrieve_all b)

-- `end` is an offset from `peek()`.
unfoldable pub retrieve_until : ℕ → Buffer → Result Buffer
unfolding retrieve
retrieve_until end b = do require (leb end (readable_bytes b)); retrieve end b

unfoldable pub retrieve_as_string : ℕ → Buffer → Result (Str × Buffer)
retrieve_as_string len b = do
  require (leb len (readable_bytes b))
  b' ← retrieve len b
  ok (take len (content b), b')

unfoldable pub retrieve_all_as_string : Buffer → Result (Str × Buffer)
retrieve_all_as_string b = retrieve_as_string (readable_bytes b) b

-- `std::copy` of `s` to the position `i`.
abbrev pub write_at : ℕ → Str → Str → Str
write_at i s v = take i v ++ (s ++ drop (i + length s) v)

-- `vector::resize`
abbrev pub resize : ℕ → Str → Str
resize n v = take n v ++ replicate (n - length v) 0

unfoldable pub make_space : ℕ → Buffer → Result Buffer
make_space len b =
    if ltb (writable_bytes b + prependable_bytes b) (len + cheap_prepend)
    then ok (record b { buffer = resize (b.writer + len) b.buffer })
    else (do
      require (ltb cheap_prepend b.reader)
      ok (record {
        buffer = write_at cheap_prepend (content b) b.buffer;
        reader = cheap_prepend;
        writer = cheap_prepend + readable_bytes b;
      }))

unfoldable pub ensure_writable_bytes : ℕ → Buffer → Result Buffer
ensure_writable_bytes len b = do
  b' ← (if ltb (writable_bytes b) len then make_space len b else ok b)
  require (leb len (writable_bytes b'))
  ok b'

unfoldable pub has_written : ℕ → Buffer → Result Buffer
has_written len b = do
  require (leb len (writable_bytes b))
  ok (record b { writer = b.writer + len })

unfoldable pub unwrite : ℕ → Buffer → Result Buffer
unwrite len b = do require (leb len (readable_bytes b)); ok (record b { writer = b.writer - len })

unfoldable pub append : Str → Buffer → Result Buffer
append s b = do
  b' ← ensure_writable_bytes (length s) b
  has_written (length s) (record b' { buffer = write_at b'.writer s b'.buffer })

unfoldable pub prepend : Str → Buffer → Result Buffer
prepend s b = do
  require (leb (length s) (prependable_bytes b))
  ok (record b { reader = b.reader - length s; buffer = write_at (b.reader - length s) s b.buffer })

-- `shrink` fills a new buffer and swaps with it.
unfoldable pub shrink : ℕ → Buffer → Result Buffer
shrink reserve b = do
  other ← ensure_writable_bytes (readable_bytes b + reserve) (init initial_size)
  append (content b) other

-- What `sockets::readv` gives: an error, or the bytes that came, which fill the vector's free part
-- first and then `extrabuf`.
pub data Received : Type 0 where
  failed : ℕ → Received
  bytes : Str → Received

-- sizeof extrabuf
abbrev pub extra_size : ℕ
extra_size = 65536

-- The most bytes that the two `iovec`s take.
abbrev pub read_limit : Buffer → ℕ
read_limit b =
    if ltb (writable_bytes b) extra_size then writable_bytes b + extra_size else writable_bytes b

-- `readFd`: the saved errno if there is one, and the buffer.
unfoldable pub read_fd : Received → Buffer → Result (Option ℕ × Buffer)
read_fd (failed errno) b = ok (some errno, b)
read_fd (bytes s) b =
    if leb (length s) (writable_bytes b)
    then ok (none, record b { buffer = write_at b.writer s b.buffer; writer = b.writer + length s })
    else (do
      b' ← append (drop (writable_bytes b) s) (record b {
        buffer = write_at b.writer (take (writable_bytes b) s) b.buffer;
        writer = length b.buffer;
      })
      ok (none, b'))
