-- ===== src/Logging/Async/Stop.antt =====
-- master/base/AsyncLogging.cc: what becomes of the lines that wait when `stop` is called.
use pp_d_scache.Base.{
  ℕ, ◌-◌, false, List, [], ◌∷◌, ok, ltb, length, ◌≡◌, refl, ◌∙◌, ◌⊎◌, inl, inr, arith, Option-cases,
  Result-cases, Bool-cases,
}
use pp_d_scache.Base.Text.{Str}
use pp_d_scache.Logging.Stream.{large_buffer}
use pp_d_scache.Logging.Async.{
  AsyncLogging, at_top, finished, append, go_on, Event, logs, goes_on, stops, happen, run,
}

-- The thread is behind its last round.
record IsOver (l t : AsyncLogging) : Type 0 where
  off : t.running ≡ false
  over : (t.phase ≡ at_top) ⊎ (t.phase ≡ finished)
  output : t.output ≡ l.output

append-IsOver : (line : Str) (l t : AsyncLogging) → IsOver l l → append line l ≡ ok t → IsOver l t
unfolding append
append-IsOver line l t o h = elim (Option-cases l.current_buffer) [
  | inl w ↦ absurd (ground (arith, h, w))
  | inr w ↦ elim (Bool-cases (ltb (length line) (large_buffer - length w.0))) [
    | inl f ↦ record {
      off = ground (arith, h, w.1, f, o.off);
      over = ground (arith, h, w.1, f, o.over);
      output = ground (arith, h, w.1, f);
    }
    | inr f ↦ record {
      off = ground (arith, h, w.1, f, o.off);
      over = ground (arith, h, w.1, f, o.over);
      output = ground (arith, h, w.1, f);
    }
  ]
]

module _ (message : ℕ → Str) where
  go_on-IsOver : (l t : AsyncLogging) → IsOver l l → go_on message l ≡ ok t → IsOver l t
  unfolding go_on
  go_on-IsOver l t o h = elim o.over [
    | inl w ↦ record {
      off = ground (arith, h, w, o.off);
      over = ground (arith, h, w, o.off);
      output = ground (arith, h, w, o.off);
    }
    | inr w ↦ record {
      off = ground (arith, h, w, o.off);
      over = ground (arith, h, w, o.off);
      output = ground (arith, h, w, o.off);
    }
  ]

  happen-IsOver :
      (e : Event) (l t : AsyncLogging) → IsOver l l → happen message e l ≡ ok t → IsOver l t
  unfolding happen
  happen-IsOver (logs line) l t o h = append-IsOver line l t o h
  happen-IsOver goes_on l t o h = go_on-IsOver l t o h
  happen-IsOver stops l t o h = record {
    off = ground (arith, h);
    over = ground (arith, h, o.over);
    output = ground (arith, h);
  }

  -- Once `running_` is false while the thread is between two rounds or at its end, nothing is
  -- written any more in any history that returns, whatever is logged: the lines that wait in the
  -- buffers are lost.
  pub run_stopped :
      (es : List Event) (l t : AsyncLogging)
      → l.running ≡ false
      → (l.phase ≡ at_top) ⊎ (l.phase ≡ finished)
      → run message es l ≡ ok t
      → t.output ≡ l.output
  unfolding run
  run_stopped [] l t off over h = ground (arith, h)
  run_stopped (e ∷ es) l t off over h = elim (Result-cases (happen message e l)) [
    | inr w ↦ absurd (ground (arith, h, w.1))
    | inl w ↦
        let o = happen-IsOver e l w.0 (record { off = off; over = over; output = refl }) w.1 in
        run_stopped es w.0 t o.off o.over (ground (arith, h, w.1)) ∙ o.output
  ]
