-- ===== src/Logging/Async/Kept.antt =====
-- master/base/AsyncLogging.cc: that no assertion fails and no line is lost while the thread runs.
use mathlib.Core.List.{append_assoc, append-nil}
use pp_d_scache.Base.{
  ◌-◌, ◌≤◌, true, false, List, [], ◌∷◌, ◌++◌, Option, none, some, ltb, if◌then◌else◌, ok, length,
  ◌≡◌, refl, ap, sym, ◌∙◌, ◌⊎◌, inl, inr, arith, Bool-cases, length-append, ltb→lt, lt→ltb,
}
use pp_d_scache.Base.Text.{Str}
use pp_d_scache.Logging.Stream.{large_buffer}
use pp_d_scache.Logging.Async.{
  AsyncLogging, Phase, at_top, waiting, writing, finished, or_new, append, note_line, buffer_append,
  collect, all_text,
}

-- A pointer that is null or to an empty buffer.
abbrev Blank : Option Str → Type 0
Blank p = (p ≡ none) ⊎ (p ≡ some [])

-- The pointers of each phase.
abbrev pub Ready : AsyncLogging → Type 0
Ready l = (l.new_buffer1 ≡ some []) × (l.new_buffer2 ≡ some []) × (l.buffers_to_write ≡ [])

abbrev pub Writes : AsyncLogging → Type 0
Writes l =
    (l.new_buffer1 ≡ none) × (1 ≤ length l.buffers_to_write) × (l.new_buffer2 ≡ some [])
    ⊎ (l.new_buffer1 ≡ none) × (2 ≤ length l.buffers_to_write) × (l.new_buffer2 ≡ none)

abbrev pub Pointers : AsyncLogging → Phase → Type 0
Pointers l phase = elim phase [
  | at_top ↦ Ready l
  | waiting ↦ Ready l
  | writing ↦ Writes l
  | finished ↦ Ready l
]

-- The text of `current_buffer`.
abbrev pub text_of : Option Str → Str
text_of none = []
text_of (some b) = b

-- All that is not written yet.
abbrev pub pending : AsyncLogging → Str
pending l = all_text l.buffers_to_write ++ (all_text l.buffers ++ text_of l.current_buffer)

pub record IsSound (l : AsyncLogging) : Type 0 where
  pub current : (b : Str) × (l.current_buffer ≡ some b)
  pub next : (l.next_buffer ≡ some []) ⊎ (l.next_buffer ≡ none) × (1 ≤ length l.buffers)
  pub in_phase : Pointers l l.phase
  pub text : (l.dropped ≡ true) ⊎ (l.output ++ pending l ≡ l.logged)

all_text-append : (bs : List Str) (b : Str) → all_text (bs ++ (b ∷ [])) ≡ all_text bs ++ b
unfolding all_text
all_text-append [] b = append-nil b
all_text-append (c ∷ bs) b =
    ap (λ (s : Str). c ++ s) (all_text-append bs b) ∙ sym (append_assoc c (all_text bs) b)

-- One more line at the end of the pending text.
grown_text :
    (o w a b line t : Str) → o ++ (w ++ (a ++ b)) ≡ t → o ++ (w ++ (a ++ (b ++ line))) ≡ t ++ line
grown_text o w a b line t e =
    ap (λ (s : Str). o ++ (w ++ s)) (sym (append_assoc a b line))
    ∙ ap (λ (s : Str). o ++ s) (sym (append_assoc w (a ++ b) line))
    ∙ sym (append_assoc o (w ++ (a ++ b)) line)
    ∙ ap (λ (s : Str). s ++ line) e

-- A line that fits the current buffer.
append-fits :
    (line b : Str) (l : AsyncLogging)
    → IsSound l
    → l.current_buffer ≡ some b
    → ltb (length line) (large_buffer - length b) ≡ true
    → (l' : AsyncLogging) × (append line l ≡ ok l') × IsSound l'
unfolding append buffer_append
append-fits line b l s at fits =
    let short : ltb (length line) large_buffer ≡ true =
      lt→ltb (length line) large_buffer
        (omega (arith, ltb→lt (length line) (large_buffer - length b) fits)) in
    (
      record l { current_buffer = some (b ++ line); logged = l.logged ++ line },
      rw (at, fits, short) refl,
      record {
        current = (b ++ line, refl);
        next = s.next;
        in_phase = s.in_phase;
        text = elim s.text [
          | inl d ↦ inl d
          | inr e ↦ inr (
              grown_text l.output (all_text l.buffers_to_write) (all_text l.buffers) b line l.logged
                (ap
                    (λ (c : Option Str).
                      l.output
                      ++ (all_text l.buffers_to_write ++ (all_text l.buffers ++ text_of c)))
                    (sym at)
                  ∙ e))
        ];
      },
    )

-- A line that fits no buffer is dropped; another one starts the next buffer.
abbrev started : Str → Str
started line = if ltb (length line) large_buffer then line else []

full_text :
    (line o w b t : Str) (bs : List Str)
    → o ++ (w ++ (all_text bs ++ b)) ≡ t
    → o ++ (w ++ (all_text (bs ++ (b ∷ [])) ++ started line))
      ≡ (if ltb (length line) large_buffer then t ++ line else t)
full_text line o w b t bs e = elim (Bool-cases (ltb (length line) large_buffer)) [
  | inl v ↦ rw v (
      ap (λ (s : Str). o ++ (w ++ s))
        (ap (λ (s : Str). s ++ line) (all_text-append bs b) ∙ append_assoc (all_text bs) b line)
      ∙ grown_text o w (all_text bs) b line t e)
  | inr v ↦ rw v (
      ap (λ (s : Str). o ++ (w ++ s))
        (append-nil (all_text (bs ++ (b ∷ []))) ∙ all_text-append bs b)
      ∙ e)
]

append-full :
    (line b : Str) (l : AsyncLogging)
    → IsSound l
    → l.current_buffer ≡ some b
    → ltb (length line) (large_buffer - length b) ≡ false
    → (l' : AsyncLogging) × (append line l ≡ ok l') × IsSound l'
unfolding append buffer_append
append-full line b l s at full =
    let new : or_new l.next_buffer ≡ [] = elim s.next [ inl w ↦ rw w refl | inr w ↦ rw w.0 refl ] in
    (
      note_line line (record l {
        buffers = l.buffers ++ (b ∷ []);
        current_buffer = some (started line);
        next_buffer = none;
      }),
      rw (at, full, new) refl,
      record {
        current = (started line, refl);
        next = inr (refl, omega (arith, length-append l.buffers (b ∷ [])));
        in_phase = s.in_phase;
        text = elim s.text [
          | inl d ↦ inl d
          | inr e ↦ inr (
              full_text line l.output (all_text l.buffers_to_write) b l.logged l.buffers (
                ap
                  (λ (c : Option Str).
                    l.output ++ (all_text l.buffers_to_write ++ (all_text l.buffers ++ text_of c)))
                  (sym at)
                ∙ e))
        ];
      },
    )

pub append-IsSound :
    (line : Str) (l : AsyncLogging)
    → IsSound l
    → (l' : AsyncLogging) × (append line l ≡ ok l') × IsSound l'
append-IsSound line l s =
    let b = s.current.0 in
    elim (Bool-cases (ltb (length line) (large_buffer - length b))) [
      | inl w ↦ append-fits line b l s s.current.1 w
      | inr w ↦ append-full line b l s s.current.1 w
    ]

swap_text :
    (o b t : Str) (bs : List Str) (new : Option Str)
    → new ≡ some []
    → o ++ (all_text bs ++ b) ≡ t
    → o ++ (all_text (bs ++ (b ∷ [])) ++ text_of new) ≡ t
swap_text o b t bs new clear e =
    ap (λ (c : Option Str). o ++ (all_text (bs ++ (b ∷ [])) ++ text_of c)) clear
    ∙ ap (λ (s : Str). o ++ s) (append-nil (all_text (bs ++ (b ∷ []))) ∙ all_text-append bs b)
    ∙ e

-- The swap of the buffers under the lock.
pub collect-IsSound :
    (l : AsyncLogging)
    → IsSound l
    → Ready l
    → (l' : AsyncLogging) × (collect l ≡ ok l') × IsSound l'
unfolding collect all_text
collect-IsSound l s r =
    let b = s.current.0 in
    let at = s.current.1 in
    let size = length-append l.buffers (b ∷ []) in
    let l' : AsyncLogging = record l {
      current_buffer = l.new_buffer1;
      new_buffer1 = none;
      buffers_to_write = l.buffers ++ (b ∷ []);
      buffers = [];
      next_buffer = elim l.next_buffer [ none ↦ l.new_buffer2 | some b ↦ some b ];
      new_buffer2 = elim l.next_buffer [ none ↦ none | some b ↦ l.new_buffer2 ];
      phase = writing;
    } in
    (
      l',
      rw at refl,
      record {
        current = ([], r.0);
        next = elim s.next [ inl w ↦ inl (rw w refl) | inr w ↦ inl (rw w.0 r.1) ];
        in_phase = elim s.next [
          | inl w ↦ inl (refl, omega (arith, size), rw w r.1)
          | inr w ↦ inr (refl, omega (arith, size, w.1), rw w.0 refl)
        ];
        text = elim s.text [
          | inl d ↦ inl d
          | inr e ↦ inr (
              swap_text l.output b l.logged l.buffers l.new_buffer1 r.0 (
                ap (λ (bs : List Str). l.output ++ (all_text bs ++ (all_text l.buffers ++ b)))
                  (sym r.2)
                ∙ ap
                    (λ (c : Option Str).
                      l.output
                      ++ (all_text l.buffers_to_write ++ (all_text l.buffers ++ text_of c)))
                    (sym at)
                ∙ e))
        ];
      },
    )
