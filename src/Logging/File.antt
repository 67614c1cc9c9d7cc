-- ===== src/Logging/File.antt =====
-- master/base/LogFile.h, LogFile.cc and FileUtil.cc: `LogFile` over `AppendFile`, with the names and the
-- contents of the files that it has opened. The clock, the name of a time and what each `fwrite` takes
-- are parameters.
pub mod Whole
mod Examples
use pp_d_scache.Base.{
  ℕ, zero, suc, ◌+◌, ◌-◌, ◌*◌, ◌/◌, Bool, true, false, List, [], ◌∷◌, ◌++◌, Option, none, some, ltb,
  leb, ◌==◌, if◌then◌else◌, length, min, take, drop,
}
use pp_d_scache.Base.Text.{Str}

abbrev pub roll_per_seconds : ℕ
roll_per_seconds = 60 * 60 * 24

-- `AppendFile`: the name, what `fwrite` took, and `writtenBytes_`; besides, what was flushed.
pub record AppendFile : Type 0 where
  pub name : Str
  pub text : Str
  pub written_bytes : ℕ
  pub flushed : Str

abbrev pub open_file : Str → AppendFile
open_file name = record { name = name; text = []; written_bytes = 0; flushed = [] }

-- The loop of `append`. `takes` is how many bytes each call of `fwrite` takes, and a call beyond its end
-- takes none; the loop stops when a call takes none.
unfoldable pub write_loop : List ℕ → Str → Str → Str
write_loop [] rest text = text
write_loop (n ∷ takes) rest text =
    let again = write_loop takes (drop n rest) (text ++ take n rest) in
    if length rest == 0 then text else if min n (length rest) == 0 then text else again

-- The first call of `fwrite`, whatever it takes, and the loop over the rest.
unfoldable pub write_all : List ℕ → Str → Str → Str
write_all [] line text = text
write_all (n ∷ takes) line text = write_loop takes (drop n line) (text ++ take n line)

unfoldable pub append_file : List ℕ → Str → AppendFile → AppendFile
append_file takes line f = record f {
  text = write_all takes line f.text;
  written_bytes = f.written_bytes + length line;
}

abbrev pub flush_file : AppendFile → AppendFile
flush_file f = record f { flushed = f.text }

-- The fields, and the files that were closed, the last one first. A file that is closed is flushed.
pub record LogFile : Type 0 where
  pub roll_size : ℕ
  pub flush_interval : ℕ
  pub check_every_n : ℕ
  pub count : ℕ
  pub start_of_period : ℕ
  pub last_roll : ℕ
  pub last_flush : ℕ
  pub file : AppendFile
  pub closed : List AppendFile

abbrev pub period : ℕ → ℕ
period now = now / roll_per_seconds * roll_per_seconds

module _ (name_at : ℕ → Str) where
  unfoldable pub roll_file : ℕ → LogFile → LogFile
  roll_file now l =
      if ltb l.last_roll now
      then record l {
        last_roll = now;
        last_flush = now;
        start_of_period = period now;
        file = open_file (name_at now);
        closed = flush_file l.file ∷ l.closed;
      }
      else l

  -- Every so many lines: a new file for a new day, or a flush.
  unfoldable pub check_period : ℕ → LogFile → LogFile
  check_period now l =
      if period now == l.start_of_period
      then (if ltb l.flush_interval (now - l.last_flush)
          then record l { last_flush = now; file = flush_file l.file }
          else l)
      else roll_file now l

  -- `now` is what `time` gives where it is called.
  unfoldable pub append_unlocked : ℕ → List ℕ → Str → LogFile → LogFile
  append_unlocked now takes line l =
      let l1 = record l { file = append_file takes line l.file } in
      let l2 = record l1 { count = suc l1.count } in
      if ltb l1.roll_size l1.file.written_bytes
      then roll_file now l1
      else if leb l2.check_every_n l2.count
      then check_period now (record l2 { count = 0 })
      else l2
