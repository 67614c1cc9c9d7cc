-- ===== src/Net/Buffer/Content.antt =====
-- The content of a buffer, the bytes between its two indices, under every operation.
use mathlib.Core.List.{append_assoc}
use pp_d_scache.Base.{
  ℕ, ◌+◌, ◌-◌, ◌≤◌, ◌≡◌, refl, sym, subst, ap, ◌∙◌, [], ◌++◌, arith, length, take, drop, replicate,
  length-append, length-take, length-drop, length-replicate, take-append, drop-append,
  take-append_le, drop-append_le, take_of_length-le, drop_of_length-le, drop-drop, drop-take,
  take-append_add,
}
use pp_d_scache.Base.Text.{Str}
use pp_d_scache.Net.Buffer.{
  Buffer, content, write_at, resize, readable_bytes, writable_bytes, retrieve_all, cheap_prepend,
}

-- The indices stand in order and within the vector, which has room for the cheap prefix.
pub record IsValid (b : Buffer) : Type 0 where
  pub ordered : b.reader ≤ b.writer
  pub within : b.writer ≤ length b.buffer
  pub base : cheap_prepend ≤ length b.buffer

-- An operation's buffer is valid and has the content `s`.
pub record Holds (b : Buffer) (s : Str) : Type 0 where
  pub valid : IsValid b
  pub holds : content b ≡ s

pub length-content : (b : Buffer) → IsValid b → length (content b) ≡ readable_bytes b
unfolding content
length-content b v =
    omega (arith, length-drop b.reader (take b.writer b.buffer), length-take b.writer b.buffer)

pub length-write_at :
    (i : ℕ) (s v : Str) → i + length s ≤ length v → length (write_at i s v) ≡ length v
length-write_at i s v h = omega (
  arith,
  length-append (take i v) (s ++ drop (i + length s) v),
  length-append s (drop (i + length s) v),
  length-take i v,
  length-drop (i + length s) v,
)

-- What stands before and in the written part.
take-write_at :
    (i k : ℕ) (s v : Str)
    → i + length s ≤ length v
    → k ≡ i + length s
    → take k (write_at i s v) ≡ take i v ++ s
take-write_at i k s v h e =
    ap (take k) (sym (append_assoc (take i v) s (drop (i + length s) v)))
    ∙ take-append k (take i v ++ s) (drop (i + length s) v)
        (omega (arith, length-append (take i v) s, length-take i v))

-- A write at the end of the content adds to it.
pub content-written :
    (b : Buffer) (s : Str)
    → IsValid b
    → b.writer + length s ≤ length b.buffer
    → Holds
        (record b { buffer = write_at b.writer s b.buffer; writer = b.writer + length s })
        (content b ++ s)
unfolding content
content-written b s v h = record {
  valid = record {
    ordered = omega arith;
    within = omega (arith, length-write_at b.writer s b.buffer h);
    base = omega (arith, v.base, length-write_at b.writer s b.buffer h);
  };
  holds =
      ap (drop b.reader) (take-write_at b.writer (b.writer + length s) s b.buffer h refl)
      ∙ drop-append_le b.reader (take b.writer b.buffer) s
          (omega (arith, length-take b.writer b.buffer));
}

-- A write that fills the vector.
pub content-filled :
    (s : Str) (b : Buffer)
    → IsValid b
    → writable_bytes b ≤ length s
    → Holds
        (record b {
          buffer = write_at b.writer (take (writable_bytes b) s) b.buffer;
          writer = length b.buffer;
        })
        (content b ++ take (writable_bytes b) s)
content-filled s b v h =
    let e : b.writer + length (take (writable_bytes b) s) ≡ length b.buffer =
      omega (arith, length-take (writable_bytes b) s) in
    subst
      (λ (w : ℕ).
        Holds
          (record b { buffer = write_at b.writer (take (writable_bytes b) s) b.buffer; writer = w })
          (content b ++ take (writable_bytes b) s))
      e (content-written b (take (writable_bytes b) s) v (omega arith))

-- A vector with `s` written behind the cheap prefix has the content `s`.
pub content-placed :
    (n : ℕ) (s v : Str)
    → length s ≡ n
    → cheap_prepend + n ≤ length v
    → Holds
        (record {
          buffer = write_at cheap_prepend s v;
          reader = cheap_prepend;
          writer = cheap_prepend + n;
        })
        s
unfolding content
content-placed n s v e h = record {
  valid = record {
    ordered = omega arith;
    within = omega (arith, length-write_at cheap_prepend s v (omega arith));
    base = omega (arith, length-write_at cheap_prepend s v (omega arith));
  };
  holds =
      ap (drop cheap_prepend)
        (take-write_at cheap_prepend (cheap_prepend + n) s v (omega arith) (omega arith))
      ∙ drop-append cheap_prepend (take cheap_prepend v) s
          (omega (arith, length-take cheap_prepend v));
}

pub length-resize : (n : ℕ) (v : Str) → length v ≤ n → length (resize n v) ≡ n
length-resize n v h = omega (
  arith,
  length-append (take n v) (replicate (n - length v) 0),
  length-take n v,
  length-replicate {0} {A = ℕ} (n - length v) 0,
)

pub content-resized :
    (b : Buffer) (n : ℕ)
    → IsValid b
    → length b.buffer ≤ n
    → Holds (record b { buffer = resize n b.buffer }) (content b)
unfolding content
content-resized b n v h = record {
  valid = record {
    ordered = v.ordered;
    within = omega (arith, length-resize n b.buffer h);
    base = omega (arith, v.base, length-resize n b.buffer h);
  };
  holds = ap (drop b.reader) (
      take-append_le b.writer (take n b.buffer) (replicate (n - length b.buffer) 0)
        (omega (arith, length-take n b.buffer))
      ∙ ap (take b.writer) (take_of_length-le n b.buffer h));
}

pub content-skipped :
    (len : ℕ) (b : Buffer) → content (record b { reader = b.reader + len }) ≡ drop len (content b)
unfolding content
content-skipped len b = sym (drop-drop b.reader len (b.reader + len) (take b.writer b.buffer) refl)

pub content-emptied : (b : Buffer) → content (retrieve_all b) ≡ []
unfolding content
content-emptied b =
    drop_of_length-le cheap_prepend (take cheap_prepend b.buffer)
      (omega (arith, length-take cheap_prepend b.buffer))

pub content-prepended :
    (s : Str) (b : Buffer)
    → IsValid b
    → length s ≤ b.reader
    → content (record b {
      reader = b.reader - length s;
      buffer = write_at (b.reader - length s) s b.buffer;
    })
      ≡ s ++ content b
unfolding content
content-prepended s b v h =
    let i = b.reader - length s in
    let k = b.writer - b.reader in
    let behind : drop (i + length s) b.buffer ≡ drop b.reader b.buffer =
      ap (λ (j : ℕ). drop j b.buffer) (omega arith) in
    drop-take i b.writer (length s + k) (write_at i s b.buffer) (omega (arith, v.ordered))
    ∙ ap (take (length s + k)) (
        drop-append i (take i b.buffer) (s ++ drop (i + length s) b.buffer)
          (omega (arith, length-take i b.buffer, v.ordered, v.within)))
    ∙ take-append_add (length s + k) k s (drop (i + length s) b.buffer) refl
    ∙ ap (λ t. s ++ t) (ap (take k) behind ∙ sym (drop-take b.reader b.writer k b.buffer refl))
