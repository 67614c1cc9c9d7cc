-- ===== src/Logging/Async/Rounds.antt =====
-- master/base/AsyncLogging.cc: the rounds of the thread that writes, and whole histories.
use mathlib.Core.List.{append_assoc}
use pp_d_scache.Base.{
  ℕ, ◌-◌, ◌≤◌, Bool, true, false, not, List, [], ◌∷◌, ◌++◌, none, some, ltb, if◌then◌else◌, Result,
  ok, ◌>>=◌, length, take, ◌≡◌, refl, ap, ◌∙◌, ◌⊎◌, inl, inr, arith, Bool-cases, subst, length-take,
}
use pp_d_scache.Base.Arrays.{pop_back, length-pop_back}
use pp_d_scache.Base.Text.{Str}
use pp_d_scache.Logging.Async.{
  AsyncLogging, Phase, at_top, waiting, writing, finished, init, is_clear, is_empty, collect,
  begin_round, recycle, all_text, write_out, go_on, Event, logs, goes_on, stops, happen, run,
}
use pp_d_scache.Logging.Async.Kept.{
  IsSound, Pointers, Ready, Writes, pending, append-IsSound, collect-IsSound,
}

is_empty-length : {A : Type 0} (xs : List A) → 1 ≤ length xs → not (is_empty xs) ≡ true
is_empty-length [] h = absurd (omega (arith, h))
is_empty-length (x ∷ xs) h = refl

recycle-none : (w : List Str) → 1 ≤ length w → recycle none w ≡ ok (some [], pop_back w)
unfolding recycle
recycle-none w h = rw (is_empty-length w h) refl

recycle-some : (b : Str) (w : List Str) → recycle (some b) w ≡ ok (some b, w)
unfolding recycle
recycle-some b w = refl

module _ (message : ℕ → Str) (l : AsyncLogging) where
  abbrev n : ℕ
  n = length l.buffers_to_write

  abbrev kept : List Str
  kept = if ltb 25 n then take 2 l.buffers_to_write else l.buffers_to_write

  -- The state after a round.
  abbrev written : AsyncLogging
  written = record l {
    new_buffer1 = some [];
    new_buffer2 = some [];
    buffers_to_write = [];
    output = l.output ++ ((if ltb 25 n then message (n - 2) else []) ++ all_text kept);
    dropped = if ltb 25 n then true else l.dropped;
    phase = at_top;
  }

  kept-length : (k : ℕ) → k ≤ 2 → k ≤ n → k ≤ length (take 2 kept)
  kept-length k two h = elim (Bool-cases (ltb 25 n)) [
    | inl w ↦ rw w (
        omega (
          arith,
          length-take 2 (take 2 l.buffers_to_write),
          length-take 2 l.buffers_to_write,
          two,
          h,
        ))
    | inr w ↦ rw w (omega (arith, length-take 2 l.buffers_to_write, two, h))
  ]

  write_out-written : Writes l → write_out message l ≡ ok written
  unfolding write_out
  write_out-written r = elim r [
    | inl w ↦
        let some_left = kept-length 1 (omega arith) w.1 in
        rw
          (
            is_empty-length l.buffers_to_write w.1,
            w.0,
            recycle-none (take 2 kept) some_left,
            w.2,
            recycle-some [] (pop_back (take 2 kept)),
          )
          refl
    | inr w ↦
        let two_left = kept-length 2 (omega arith) w.1 in
        let one_left : 1 ≤ length (pop_back (take 2 kept)) =
          omega (arith, length-pop_back (take 2 kept), two_left) in
        rw
          (
            is_empty-length l.buffers_to_write (omega (arith, w.1)),
            w.0,
            recycle-none (take 2 kept) (omega (arith, two_left)),
            w.2,
            recycle-none (pop_back (take 2 kept)) one_left,
          )
          refl
  ]

  written-IsSound : IsSound l → IsSound written
  unfolding all_text
  written-IsSound s = record {
    current = s.current;
    next = s.next;
    in_phase = (refl, refl, refl);
    text = elim (Bool-cases (ltb 25 n)) [
      | inl w ↦ inl (rw w refl)
      | inr w ↦ elim s.text [
        | inl d ↦ inl (rw w d)
        | inr e ↦ inr (rw w (append_assoc l.output (all_text l.buffers_to_write) _ ∙ e))
      ]
    ];
  }

begin_round-IsSound :
    (l : AsyncLogging)
    → IsSound l
    → Ready l
    → (l' : AsyncLogging) × (begin_round l ≡ ok l') × IsSound l'
unfolding begin_round
begin_round-IsSound l s r = elim (Bool-cases (is_empty l.buffers)) [
  | inl w ↦ (
    record l { phase = waiting },
    rw (ap is_clear r.0, ap is_clear r.1, ap is_empty r.2, w) refl,
    record { current = s.current; next = s.next; in_phase = r; text = s.text },
  )
  | inr w ↦
      let c = collect-IsSound l s r in
      (c.0, rw (ap is_clear r.0, ap is_clear r.1, ap is_empty r.2, w) c.1, c.2)
]

module _ (message : ℕ → Str) where
  abbrev SoundNext : Result AsyncLogging → Type 0
  SoundNext r = (l' : AsyncLogging) × (r ≡ ok l') × IsSound l'

  go_on-IsSound : (l : AsyncLogging) → IsSound l → SoundNext (go_on message l)
  unfolding go_on
  go_on-IsSound l s =
      let at = λ (p : Phase) (e : l.phase ≡ p). subst (Pointers l) e s.in_phase in
      elim l.phase
          as (λ p.
            l.phase ≡ p
            → SoundNext (elim p [
              | at_top ↦ if l.running then begin_round l else ok (record l { phase = finished })
              | waiting ↦ collect l
              | writing ↦ write_out message l
              | finished ↦ ok l
            ])) [
              | at_top ↦ λ e. elim (Bool-cases l.running) [
                | inl w ↦
                    let r = begin_round-IsSound l s (at at_top e) in
                    (
                      r.0,
                      ap
                            (λ (b : Bool).
                              if b then begin_round l else ok (record l { phase = finished }))
                            w
                          ∙ r.1,
                      r.2,
                    )
                | inr w ↦ (
                  record l { phase = finished },
                  ap (λ (b : Bool). if b then begin_round l else ok (record l { phase = finished }))
                      w,
                  record {
                    current = s.current;
                    next = s.next;
                    in_phase = at at_top e;
                    text = s.text;
                  },
                )
              ]
              | waiting ↦ λ e. collect-IsSound l s (at waiting e)
              | writing ↦ λ e. (
                written message l,
                write_out-written message l (at writing e),
                written-IsSound message l s,
              )
              | finished ↦ λ e. (l, refl, s)
            ]
        refl

  happen-IsSound : (e : Event) (l : AsyncLogging) → IsSound l → SoundNext (happen message e l)
  unfolding happen
  happen-IsSound (logs line) l s = append-IsSound line l s
  happen-IsSound goes_on l s = go_on-IsSound l s
  happen-IsSound stops l s = (
    record l { running = false },
    refl,
    record { current = s.current; next = s.next; in_phase = s.in_phase; text = s.text },
  )

  pub run-IsSound : (es : List Event) (l : AsyncLogging) → IsSound l → SoundNext (run message es l)
  unfolding run
  run-IsSound [] l s = (l, refl, s)
  run-IsSound (e ∷ es) l s =
      let r = happen-IsSound e l s in
      let t = run-IsSound es r.0 r.2 in
      (t.0, ap (λ (x : Result AsyncLogging). x >>= run message es) r.1 ∙ t.1, t.2)

  pub init-IsSound : IsSound init
  unfolding all_text
  init-IsSound = record {
    current = ([], refl);
    next = inl refl;
    in_phase = (refl, refl, refl);
    text = inr refl;
  }

  -- Any order of lines, steps of the thread and calls of `stop` runs with no failed assertion and no use
  -- of a null buffer. Afterwards, unless a round found more than 25 buffers and dropped some, what the
  -- log file got, followed by what waits in the buffers, is all lines that fit a buffer, in the order in
  -- which they were logged.
  pub run_keeps :
      (es : List Event)
      → (l : AsyncLogging) × (run message es init ≡ ok l)
        × ((l.dropped ≡ true) ⊎ (l.output ++ pending l ≡ l.logged))
  run_keeps es = let r = run-IsSound es init init-IsSound in (r.0, r.1, r.2.text)
