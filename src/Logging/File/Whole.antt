-- ===== src/Logging/File/Whole.antt =====
-- master/base/LogFile.cc: that the files together hold what was logged, in order, wherever a new file
-- is started.
use mathlib.Core.List.{append_assoc, append-nil}
use pp_d_scache.Base.{
  ℕ, zero, suc, ◌+◌, ◌-◌, ◌≤◌, false, List, [], ◌∷◌, ◌++◌, ltb, leb, ◌==◌, length, min, take, drop,
  ◌≡◌, refl, ap, sym, ◌∙◌, ◌⊎◌, inl, inr, arith, Bool-cases, length-append, length-drop, get_elem?,
  some,
}
use pp_d_scache.Base.Text.{Str}
use pp_d_scache.Logging.File.{
  AppendFile, write_loop, write_all, append_file, LogFile, period, roll_file, check_period,
  append_unlocked,
}

unfoldable pub sum : List ℕ → ℕ
sum [] = 0
sum (n ∷ ns) = n + sum ns

-- `fwrite` takes at least one byte each time, and all of them in the end.
record Progresses (takes : List ℕ) (line : Str) : Type 0 where
  progress : (j n : ℕ) → get_elem? takes j ≡ some n → 1 ≤ n
  enough : length line ≤ sum takes

-- After the first call, which may take nothing, `fwrite` takes at least one byte each time, and all
-- of them in the end.
pub record Takes (takes : List ℕ) (line : Str) : Type 0 where
  pub progress : (j n : ℕ) → get_elem? takes (suc j) ≡ some n → 1 ≤ n
  pub enough : length line ≤ sum takes

take-drop : (n : ℕ) (s : Str) → take n s ++ drop n s ≡ s
take-drop zero s = refl
take-drop (suc n) [] = refl
take-drop (suc n) (c ∷ s) = ap (λ (t : Str). c ∷ t) (take-drop n s)

length-zero : (s : Str) → length s ≡ 0 → s ≡ []
length-zero [] h = refl
length-zero (c ∷ s) h = absurd (omega (arith, h))

-- The loop writes all of the line.
write_loop-Progresses :
    (takes : List ℕ) (rest text : Str)
    → Progresses takes rest
    → write_loop takes rest text ≡ text ++ rest
unfolding write_loop sum
write_loop-Progresses [] rest text t =
    sym (append-nil text)
    ∙ ap (λ (s : Str). text ++ s) (sym (length-zero rest (omega (arith, t.enough))))
write_loop-Progresses (n ∷ takes) rest text t =
    let n_pos = t.progress 0 n refl in
    let again = write_loop-Progresses takes (drop n rest) (text ++ take n rest) (record {
      progress = λ j. t.progress (suc j);
      enough = omega (arith, length-drop n rest, t.enough);
    }) in
    let joined =
      append_assoc text (take n rest) (drop n rest)
      ∙ ap (λ (s : Str). text ++ s) (take-drop n rest) in
    elim (Bool-cases (length rest == 0)) [
      | inl w ↦ rw w (
          sym (append-nil text)
          ∙ ap (λ (s : Str). text ++ s) (sym (length-zero rest (ground (arith, w)))))
      | inr w ↦
          let some_left : (min n (length rest) == 0) ≡ false = ground (arith, w, n_pos) in
          rw (w, some_left) (again ∙ joined)
    ]

-- The first call and the loop write all of the line.
write_all-Takes :
    (takes : List ℕ) (line text : Str) → Takes takes line → write_all takes line text ≡ text ++ line
unfolding write_all sum
write_all-Takes [] line text t =
    sym (append-nil text)
    ∙ ap (λ (s : Str). text ++ s) (sym (length-zero line (omega (arith, t.enough))))
write_all-Takes (n ∷ takes) line text t =
    write_loop-Progresses takes (drop n line) (text ++ take n line)
      (record { progress = t.progress; enough = omega (arith, length-drop n line, t.enough) })
    ∙ append_assoc text (take n line) (drop n line)
    ∙ ap (λ (s : Str). text ++ s) (take-drop n line)

-- The texts of the closed files, the first one first.
unfoldable pub closed_text : List AppendFile → Str
closed_text [] = []
closed_text (f ∷ fs) = closed_text fs ++ f.flushed

abbrev pub whole : LogFile → Str
whole l = closed_text l.closed ++ l.file.text

-- A line, the time, and how `fwrite` takes it.
pub record Entry : Type 0 where
  pub line : Str
  pub now : ℕ
  pub takes : List ℕ

-- `writtenBytes_` counts the text of the file.
abbrev pub IsCounted : LogFile → Type 0
IsCounted l = l.file.written_bytes ≡ length l.file.text

-- What a line adds.
record Adds (s : Str) (l l' : LogFile) : Type 0 where
  text : whole l' ≡ whole l ++ s
  counted : IsCounted l'

module _ (name_at : ℕ → Str) where
  roll_file-Adds :
      (now : ℕ) (s : Str) (k l : LogFile) → Adds s k l → Adds s k (roll_file name_at now l)
  unfolding roll_file closed_text
  roll_file-Adds now s k l a = elim (Bool-cases (ltb l.last_roll now)) [
    | inl w ↦ rw w (record {
      text = append-nil (closed_text l.closed ++ l.file.text) ∙ a.text;
      counted = refl;
    })
    | inr w ↦ rw w a
  ]

  check_period-Adds :
      (now : ℕ) (s : Str) (k l : LogFile) → Adds s k l → Adds s k (check_period name_at now l)
  unfolding check_period
  check_period-Adds now s k l a = elim (Bool-cases (period now == l.start_of_period)) [
    | inl w ↦ elim (Bool-cases (ltb l.flush_interval (now - l.last_flush))) [
      | inl v ↦ rw (w, v) (record { text = a.text; counted = a.counted })
      | inr v ↦ rw (w, v) a
    ]
    | inr w ↦ rw w (roll_file-Adds now s k l a)
  ]

  append_file-Adds :
      (takes : List ℕ) (line : Str) (l : LogFile)
      → Takes takes line
      → IsCounted l
      → Adds line l (record l { file = append_file takes line l.file })
  unfolding append_file
  append_file-Adds takes line l t c =
      let e = write_all-Takes takes line l.file.text t in
      record {
        text =
            ap (λ (s : Str). closed_text l.closed ++ s) e
            ∙ sym (append_assoc (closed_text l.closed) l.file.text line);
        counted = omega (arith, c, ap length e, length-append l.file.text line);
      }

  append_unlocked-Adds :
      (now : ℕ) (takes : List ℕ) (line : Str) (l : LogFile)
      → Takes takes line
      → IsCounted l
      → Adds line l (append_unlocked name_at now takes line l)
  unfolding append_unlocked
  append_unlocked-Adds now takes line l t c =
      let a = append_file-Adds takes line l t c in
      let l1 : LogFile = record l { file = append_file takes line l.file } in
      let l2 : LogFile = record l1 { count = suc l1.count } in
      elim (Bool-cases (ltb l1.roll_size l1.file.written_bytes)) [
        | inl w ↦ rw w (roll_file-Adds now line l l1 a)
        | inr w ↦ elim (Bool-cases (leb l2.check_every_n l2.count)) [
          | inl v ↦
              rw (w, v)
                (check_period-Adds now line l (record l2 { count = 0 })
                  (record { text = a.text; counted = a.counted }))
          | inr v ↦ rw (w, v) (record { text = a.text; counted = a.counted })
        ]
      ]

  unfoldable pub append_all : List Entry → LogFile → LogFile
  append_all [] l = l
  append_all (e ∷ es) l = append_all es (append_unlocked name_at e.now e.takes e.line l)

  -- A file over the size for a new one is the file of this very second.
  append_unlocked_bound :
      (now : ℕ) (takes : List ℕ) (line : Str) (l : LogFile)
      → ((append_unlocked name_at now takes line l).file.written_bytes ≤ l.roll_size)
        ⊎ (now ≤ (append_unlocked name_at now takes line l).last_roll)
  unfolding append_unlocked roll_file check_period
  append_unlocked_bound now takes line l = ground arith

  unfoldable pub all_lines : List Entry → Str
  all_lines [] = []
  all_lines (e ∷ es) = e.line ++ all_lines es

  -- Where the bytes of the first file are counted right, and `fwrite` takes all of each line in the
  -- end and something in each of its calls but, perhaps, the first one: the files together hold, in the order in which they were opened, what
  -- they held before and then all lines, whole and in order, at whatever lines a new file is
  -- started. A file that is closed counts with what was flushed.
  pub append_all-whole :
      (es : List Entry) (l : LogFile)
      → ((j : ℕ) (e : Entry) → get_elem? es j ≡ some e → Takes e.takes e.line)
      → IsCounted l
      → whole (append_all es l) ≡ whole l ++ all_lines es
  unfolding append_all all_lines
  append_all-whole [] l t c = sym (append-nil (whole l))
  append_all-whole (e ∷ es) l t c =
      let a = append_unlocked-Adds e.now e.takes e.line l (t 0 e refl) c in
      append_all-whole es (append_unlocked name_at e.now e.takes e.line l) (λ j. t (suc j))
        a.counted
      ∙ ap (λ (s : Str). s ++ all_lines es) a.text
      ∙ append_assoc (whole l) e.line (all_lines es)
