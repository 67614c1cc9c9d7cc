-- ===== src/Logging/File/Examples.antt =====
-- The theorem on log files at two lines, the first of which fills a file.
use pp_d_scache.Base.{
  ℕ, zero, suc, ◌≤◌, List, [], ◌∷◌, ◌++◌, Option, none, some, subst, get_elem?, ◌≡◌, refl, arith,
}
use pp_d_scache.Base.Text.{Str, codes}
use pp_d_scache.Logging.File.{LogFile, open_file}
use pp_d_scache.Logging.File.Whole.{
  Entry, Takes, whole, append_all, all_lines, append_all-whole, sum,
}

-- The name of a file is its time alone.
abbrev name_at : ℕ → Str
name_at now = now ∷ []

abbrev fresh : LogFile
fresh = record {
  roll_size = 4;
  flush_interval = 3;
  check_every_n = 2;
  count = 0;
  start_of_period = 0;
  last_roll = 10;
  last_flush = 10;
  file = open_file (name_at 10);
  closed = [];
}

-- The first line takes three calls of `fwrite`, of which the first one takes nothing.
abbrev entries : List Entry
entries =
    record { line = codes "abcdef"; now = 11; takes = 0 ∷ 4 ∷ 2 ∷ [] }
    ∷ record { line = codes "gh"; now = 12; takes = 2 ∷ [] }
    ∷ []

first_progress : (j n : ℕ) → get_elem? (0 ∷ 4 ∷ 2 ∷ []) (suc j) ≡ some n → 1 ≤ n
first_progress zero n h = ground (arith, h)
first_progress (suc zero) n h = ground (arith, h)
first_progress (suc (suc j)) n h = absurd (ground (arith, h))

second_progress : (j n : ℕ) → get_elem? (2 ∷ []) (suc j) ≡ some n → 1 ≤ n
second_progress j n h = absurd (ground (arith, h))

entries-Takes : (j : ℕ) (e : Entry) → get_elem? entries j ≡ some e → Takes e.takes e.line
unfolding sum
entries-Takes zero e h =
    subst (λ (x : Option Entry). elim x [ none ↦ Takes [] [] | some y ↦ Takes y.takes y.line ]) h
      (record { progress = first_progress; enough = omega arith })
entries-Takes (suc zero) e h =
    subst (λ (x : Option Entry). elim x [ none ↦ Takes [] [] | some y ↦ Takes y.takes y.line ]) h
      (record { progress = second_progress; enough = omega arith })
entries-Takes (suc (suc j)) e h = absurd (ground (arith, h))

append_all-whole_example :
    whole (append_all name_at entries fresh) ≡ whole fresh ++ all_lines name_at entries
append_all-whole_example = append_all-whole name_at entries fresh entries-Takes refl
