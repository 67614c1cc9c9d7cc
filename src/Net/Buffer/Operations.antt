-- ===== src/Net/Buffer/Operations.antt =====
-- The buffer's operations, by what they do to its content: none of them fails on a valid buffer, and
-- each leaves a valid one.
use mathlib.Core.List.{append_assoc}
use pp_d_scache.Base.{
  ℕ, ◌+◌, ◌-◌, ◌≤◌, ◌<◌, ◌≡◌, refl, sym, ap, ◌∙◌, inl, inr, [], ◌++◌, none, some, arith, length,
  take, drop, length-take, length-replicate, drop_of_length-le, take-append-drop, ltb, leb, ltb→lt,
  le→leb, Bool-cases, ok,
}
use pp_d_scache.Base.Text.{Str}
use pp_d_scache.Net.Buffer.{
  Buffer, bytes, failed, init, content, retrieve, retrieve_as_string, write_at, resize, make_space,
  ensure_writable_bytes, has_written, append, prepend, shrink, read_fd, readable_bytes,
  writable_bytes, prependable_bytes, retrieve_all, cheap_prepend, initial_size,
}
use pp_d_scache.Net.Buffer.Content.{
  IsValid, Holds, length-content, length-write_at, content-written, content-filled, content-placed,
  length-resize, content-resized, content-skipped, content-emptied, content-prepended,
}

-- Where the free part is too small, `makeSpace` passes its assertion, keeps the content, and leaves
-- room for the bytes.
make_space-Holds :
    (len : ℕ) (b : Buffer)
    → IsValid b
    → writable_bytes b < len
    → (b' : Buffer) × (make_space len b ≡ ok b') × Holds b' (content b) × (len ≤ writable_bytes b')
unfolding make_space
make_space-Holds len b v h =
    elim (Bool-cases (ltb (writable_bytes b + prependable_bytes b) (len + cheap_prepend))) [
      | inl grow ↦ (
        record b { buffer = resize (b.writer + len) b.buffer },
        rw grow,
        content-resized b (b.writer + len) v (omega arith),
        omega (arith, length-resize (b.writer + len) b.buffer (omega arith)),
      )
      | inr move ↦ (
        record {
          buffer = write_at cheap_prepend (content b) b.buffer;
          reader = cheap_prepend;
          writer = cheap_prepend + readable_bytes b;
        },
        ground arith,
        content-placed (readable_bytes b) (content b) b.buffer (length-content b v) (ground arith),
        ground (arith, length-write_at cheap_prepend (content b) b.buffer, length-content b v),
      )
    ]

-- On a valid buffer `ensureWritableBytes` fails no assertion, keeps the content, and leaves the room
-- that is asked for.
pub ensure_writable_bytes-Holds :
    (len : ℕ) (b : Buffer)
    → IsValid b
    → (b' : Buffer) × (ensure_writable_bytes len b ≡ ok b')
      × Holds b' (content b)
      × (len ≤ writable_bytes b')
unfolding ensure_writable_bytes
ensure_writable_bytes-Holds len b v = elim (Bool-cases (ltb (writable_bytes b) len)) [
  | inl small ↦
      let (b', made, holds, room) = make_space-Holds len b v (ltb→lt _ _ small) in
      (b', rw (small, made) (rw (le→leb _ _ room)), holds, room)
  | inr fits ↦ (b, ground arith, record { valid = v; holds = refl }, ground arith)
]

has_written_lem :
    (s : Str) (b : Buffer)
    → IsValid b
    → length s ≤ writable_bytes b
    → has_written (length s) (record b { buffer = write_at b.writer s b.buffer })
      ≡ ok (record b { buffer = write_at b.writer s b.buffer; writer = b.writer + length s })
unfolding has_written
has_written_lem s b v h = ground (arith, length-write_at b.writer s b.buffer)

-- `append` never fails on a valid buffer and puts the bytes behind the content.
pub append-Holds :
    (s : Str) (b : Buffer)
    → IsValid b
    → (b' : Buffer) × (append s b ≡ ok b') × Holds b' (content b ++ s)
unfolding append
append-Holds s b v =
    let (b', made, h, room) = ensure_writable_bytes-Holds (length s) b v in
    let w = content-written b' s h.valid (omega (arith, h.valid.within)) in
    (
      record b' { buffer = write_at b'.writer s b'.buffer; writer = b'.writer + length s },
      rw made (has_written_lem s b' h.valid room),
      record { valid = w.valid; holds = w.holds ∙ ap (λ c. c ++ s) h.holds },
    )

-- `retrieve` of no more bytes than there are never fails and drops them from the front.
pub retrieve-Holds :
    (len : ℕ) (b : Buffer)
    → IsValid b
    → len ≤ readable_bytes b
    → (b' : Buffer) × (retrieve len b ≡ ok b') × Holds b' (drop len (content b))
unfolding retrieve
retrieve-Holds len b v h = elim (Bool-cases (ltb len (readable_bytes b))) [
  | inl part ↦ (
    record b { reader = b.reader + len },
    ground arith,
    record {
      valid = record { ordered = ground arith; within = v.within; base = v.base };
      holds = content-skipped len b;
    },
  )
  | inr all ↦ (
    retrieve_all b,
    ground arith,
    record {
      valid = record { ordered = omega arith; within = v.base; base = v.base };
      holds =
          content-emptied b
          ∙ sym (drop_of_length-le len (content b) (ground (arith, length-content b v)));
    },
  )
]

-- On a valid buffer `retrieveAsString` of no more bytes than it holds returns the first of them, and
-- drops just those.
pub retrieve_as_string-Holds :
    (len : ℕ) (b : Buffer)
    → IsValid b
    → len ≤ readable_bytes b
    → (b' : Buffer) × (retrieve_as_string len b ≡ ok (take len (content b), b'))
      × Holds b' (drop len (content b))
unfolding retrieve_as_string
retrieve_as_string-Holds len b v h =
    let (b', done, holds) = retrieve-Holds len b v h in
    (b', rw (le→leb len (readable_bytes b) h, done), holds)

-- `prepend` of no more bytes than the prefix has puts them before the content.
pub prepend-Holds :
    (s : Str) (b : Buffer)
    → IsValid b
    → length s ≤ b.reader
    → (b' : Buffer) × (prepend s b ≡ ok b') × Holds b' (s ++ content b)
unfolding prepend
prepend-Holds s b v h = (
  record b { reader = b.reader - length s; buffer = write_at (b.reader - length s) s b.buffer },
  rw (le→leb (length s) b.reader h),
  record {
    valid = record {
      ordered = omega (arith, v.ordered);
      within = omega (arith, v.ordered, v.within, length-write_at (b.reader - length s) s b.buffer);
      base =
          omega
            (arith, v.ordered, v.within, v.base, length-write_at (b.reader - length s) s b.buffer);
    };
    holds = content-prepended s b v h;
  },
)

init-Holds : (size : ℕ) → Holds (init size) []
unfolding init content
init-Holds size = record {
  valid = record {
    ordered = omega arith;
    within = omega (arith, length-replicate {0} {A = ℕ} (cheap_prepend + size) 0);
    base = omega (arith, length-replicate {0} {A = ℕ} (cheap_prepend + size) 0);
  };
  holds =
      drop_of_length-le cheap_prepend (take cheap_prepend (init size).buffer)
        (omega (arith, length-take cheap_prepend (init size).buffer));
}

-- `shrink` never fails on a valid buffer and keeps the content.
pub shrink-Holds :
    (reserve : ℕ) (b : Buffer)
    → IsValid b
    → (b' : Buffer) × (shrink reserve b ≡ ok b') × Holds b' (content b)
unfolding shrink
shrink-Holds reserve b v =
    let new = init-Holds initial_size in
    let (o, made, h, room) =
      ensure_writable_bytes-Holds (readable_bytes b + reserve) (init initial_size) new.valid in
    let (b', done, r) = append-Holds (content b) o h.valid in
    (
      b',
      rw (made, done),
      record { valid = r.valid; holds = r.holds ∙ ap (λ s. s ++ content b) (h.holds ∙ new.holds) },
    )

-- `readFd` never fails on a valid buffer. The bytes that came stand behind the content in their order, also where some
-- of them went through `extrabuf`; an error leaves the buffer as it was.
pub read_fd-Holds :
    (s : Str) (errno : ℕ) (b : Buffer)
    → IsValid b
    → ((b' : Buffer) × (read_fd (bytes s) b ≡ ok (none, b')) × Holds b' (content b ++ s))
      × (read_fd (failed errno) b ≡ ok (some errno, b))
unfolding read_fd
read_fd-Holds s errno b v = (
  elim (Bool-cases (leb (length s) (writable_bytes b))) [
    | inl fits ↦ (
      record b { buffer = write_at b.writer s b.buffer; writer = b.writer + length s },
      rw fits,
      content-written b s v (ground arith),
    )
    | inr over ↦
        let w = content-filled s b v (ground arith) in
        let (b', done, r) = append-Holds (drop (writable_bytes b) s) _ w.valid in
        (
          b',
          rw (over, done),
          record {
            valid = r.valid;
            holds =
                r.holds
                ∙ ap (λ c. c ++ drop (writable_bytes b) s) w.holds
                ∙ append_assoc (content b) (take (writable_bytes b) s) (drop (writable_bytes b) s)
                ∙ ap (λ c. content b ++ c) (take-append-drop (writable_bytes b) s);
          },
        )
  ],
  refl,
)
