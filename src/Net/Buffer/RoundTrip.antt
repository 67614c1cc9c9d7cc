-- ===== src/Net/Buffer/RoundTrip.antt =====
-- Integers that were appended or prepended are read back.
use mathlib.Core.List.{append-nil}
use pp_d_scache.Base.{
  ℕ, zero, suc, ◌^◌, ◌≤◌, ◌<◌, ◌≡◌, refl, ap, ◌∙◌, sym, arith, [], ◌++◌, length, drop, le→leb,
  take-append, drop-append, length-append, ok,
}
use pp_d_scache.Base.Text.{Str}
use pp_d_scache.Net.Buffer.{Buffer, content, retrieve, readable_bytes}
use pp_d_scache.Net.Buffer.Content.{IsValid, Holds, length-content}
use pp_d_scache.Net.Buffer.Operations.{append-Holds, prepend-Holds, retrieve-Holds}
use pp_d_scache.Net.Buffer.Ints.{
  IntSize, int8, int16, int32, int64, size_of, host_to_network, network_to_host, append_int,
  prepend_int, peek_int, retrieve_int, read_int,
}

-- The bytes of an integer that fits its size stand for it.
network_to_host-host_to_network :
    (w : IntSize) (x : ℕ)
    → x < 256 ^ size_of w
    → network_to_host 0 (host_to_network (size_of w) x) ≡ x
unfolding network_to_host host_to_network
network_to_host-host_to_network int8 x h = omega arith
network_to_host-host_to_network int16 x h = omega arith
network_to_host-host_to_network int32 x h = omega arith
network_to_host-host_to_network int64 x h = omega arith

pub length-host_to_network : (k x : ℕ) → length (host_to_network k x) ≡ k
unfolding host_to_network
length-host_to_network zero x = refl
length-host_to_network (suc k) x = ap suc (length-host_to_network k x)

-- An integer at the front is read and dropped.
read_int-front :
    (w : IntSize) (x : ℕ) (rest : Str) (b : Buffer)
    → IsValid b
    → x < 256 ^ size_of w
    → content b ≡ host_to_network (size_of w) x ++ rest
    → (b' : Buffer) × (read_int w b ≡ ok (x, b')) × Holds b' rest
unfolding read_int peek_int retrieve_int
read_int-front w x rest b v h e =
    let k = size_of w in
    let size = length-host_to_network k x in
    let enough : k ≤ readable_bytes b =
      omega
        (arith, length-content b v, ap length e, length-append (host_to_network k x) rest, size) in
    let (b', done, r) = retrieve-Holds k b v enough in
    (
      b',
      rw (
        le→leb k (readable_bytes b) enough,
        done,
        e,
        take-append k (host_to_network k x) rest size,
        network_to_host-host_to_network w x h,
      ),
      record {
        valid = r.valid;
        holds = r.holds ∙ ap (drop k) e ∙ drop-append k (host_to_network k x) rest size;
      },
    )

-- An integer of any size that is prepended is read back, and the buffer holds what it held.
pub read_int-prepend_int :
    (w : IntSize) (x : ℕ) (b : Buffer)
    → IsValid b
    → size_of w ≤ b.reader
    → x < 256 ^ size_of w
    → (b' b'' : Buffer) × (prepend_int w x b ≡ ok b')
      × (read_int w b' ≡ ok (x, b''))
      × Holds b'' (content b)
unfolding prepend_int
read_int-prepend_int w x b v room h =
    let size = length-host_to_network (size_of w) x in
    let (b', done, p) = prepend-Holds (host_to_network (size_of w) x) b v (omega arith) in
    let (b'', read, r) = read_int-front w x (content b) b' p.valid h p.holds in
    (b', b'', done, read, r)

-- An integer of any size that is appended is read back once what stood before it was retrieved, and
-- then the buffer is empty.
pub read_int-append_int :
    (w : IntSize) (x : ℕ) (b : Buffer)
    → IsValid b
    → x < 256 ^ size_of w
    → (b₁ b₂ b₃ : Buffer) × (append_int w x b ≡ ok b₁)
      × (retrieve (readable_bytes b) b₁ ≡ ok b₂)
      × (read_int w b₂ ≡ ok (x, b₃))
      × Holds b₃ []
unfolding append_int
read_int-append_int w x b v h =
    let s = host_to_network (size_of w) x in
    let (b₁, added, a) = append-Holds s b v in
    let old = length-content b v in
    let (b₂, gone, g) = retrieve-Holds (readable_bytes b) b₁ a.valid (
      omega
        (arith, length-content b₁ a.valid, ap length a.holds, length-append (content b) s, old)) in
    let (b₃, read, r) = read_int-front w x [] b₂ g.valid h (
      g.holds
      ∙ ap (drop (readable_bytes b)) a.holds
      ∙ drop-append (readable_bytes b) (content b) s old
      ∙ sym (append-nil s)) in
    (b₁, b₂, b₃, added, gone, read, r)
