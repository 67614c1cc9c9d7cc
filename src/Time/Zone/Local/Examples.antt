-- ===== src/Time/Zone/Local/Examples.antt =====
-- The theorems on local times at a zone with a summer.
use pp_d_scache.Base.{
  ℕ, zero, suc, Bool, true, false, List, [], ◌∷◌, Option, some, ok, err, undefined, ◌>>=◌, ◌≡◌,
  refl, arith, get_elem?, replicate, ◌<◌,
}
use pp_d_scache.Base.Int.{ℤ, pos, negsuc}
use pp_d_scache.Base.Text.{codes}
use pp_d_scache.Time.Zone.{Tm}
use pp_d_scache.Time.Zone.Local.{
  Transition, Localtime, Data, sentry_at, to_local_time, from_local_time, less,
}
use pp_d_scache.Time.Zone.Local.Search.{IsSorted, InForce, from_local_time-to_local_time}
use pp_d_scache.Time.Zone.File.{read_time_zone_file, make_zone, valid}
use pp_d_scache.Time.Zone.File.Written.{Entry, idx_of}
use pp_d_scache.Time.Zone.File.Whole.{
  ZoneFile, IsWritten, held, file_bytes, read_time_zone_file-bytes,
}
use pp_d_scache.Time.Zone.File.Missing.{to_local_time-foreign}

abbrev spring : Transition
spring = record { gmttime = pos 1000; localtime = pos 8200; localtime_idx = 1 }

abbrev autumn : Transition
autumn = record { gmttime = pos 100000; localtime = pos 103600; localtime_idx = 0 }

abbrev winter_time : Localtime
winter_time = record { gmt_offset = pos 3600; is_dst = false; arrb_idx = 0 }

abbrev summer_time : Localtime
summer_time = record { gmt_offset = pos 7200; is_dst = true; arrb_idx = 4 }

abbrev changes : List Transition
changes = spring ∷ autumn ∷ []

abbrev zone : Data
zone = record {
  transitions = changes;
  localtimes = winter_time ∷ summer_time ∷ [];
  abbreviation = codes "CET CEST";
}

-- One transition follows the other in both times.
follows :
    (gmt : Bool) (i : ℕ) (a b : Transition)
    → get_elem? changes i ≡ some a
    → get_elem? changes (suc i) ≡ some b
    → less gmt a b ≡ true
follows true zero a b h k = ground (arith, h, k)
follows false zero a b h k = ground (arith, h, k)
follows gmt (suc zero) a b h k = absurd (ground (arith, k))
follows gmt (suc (suc i)) a b h k = absurd (ground (arith, k))

changes-IsSorted : (gmt : Bool) → IsSorted gmt changes
changes-IsSorted gmt = record { ascends = follows gmt }

-- The summer time at 5000 seconds.
spring-InForce : InForce true (sentry_at true (pos 5000)) changes 0 spring
spring-InForce = record { here = refl; begun = refl; not_ended = λ u h. ground (arith, h) }

spring-InForce-local : InForce false (sentry_at false (pos 12200)) changes 0 spring
spring-InForce-local = record { here = refl; begun = refl; not_ended = λ u h. ground (arith, h) }

-- The C library, as far as these theorems rely on it: the seconds are kept in two fields.
abbrev gmtime : ℤ → Tm
gmtime (pos n) = record {
  year = n;
  month = 1;
  day = 1;
  hour = 0;
  minute = 0;
  second = 0;
  week_day = 0;
  year_day = 0;
}
gmtime (negsuc n) = record {
  year = n;
  month = 0;
  day = 1;
  hour = 0;
  minute = 0;
  second = 0;
  week_day = 0;
  year_day = 0;
}

abbrev timegm : Tm → ℤ
timegm t = elim t.month [ zero ↦ negsuc t.year | suc m ↦ pos t.year ]

timegm-gmtime : (n : ℤ) → timegm (gmtime n) ≡ n
timegm-gmtime (pos n) = refl
timegm-gmtime (negsuc n) = refl

from_local_time-to_local_time_example :
    (to_local_time gmtime timegm (pos 5000) (some zone) >>= λ tm.
    from_local_time gmtime timegm tm (some zone))
    ≡ ok (pos 5000)
from_local_time-to_local_time_example =
    from_local_time-to_local_time gmtime timegm timegm-gmtime zone (pos 5000) 0 spring summer_time
      (changes-IsSorted true) (changes-IsSorted false) refl (omega arith) spring-InForce
      spring-InForce-local

-- The same zone as a file, with a second version of the data behind the first.
abbrev file : ZoneFile
file = record {
  version = codes "2";
  reserved = replicate 15 0;
  isgmtcnt = 2;
  isstdcnt = 2;
  leapcnt = 0;
  entries = (1000, 1) ∷ (100000, 0) ∷ [];
  kinds =
      record { gmtoff = 3600; isdst = 0; abbrind = 0 }
      ∷ record { gmtoff = 7200; isdst = 1; abbrind = 4 }
      ∷ [];
  text = codes "CET CEST";
  after = codes "TZif2";
}

file-known : (j : ℕ) (e : Entry) → get_elem? file.entries j ≡ some e → idx_of e < 2
file-known zero e h = ground (arith, h)
file-known (suc zero) e h = ground (arith, h)
file-known (suc (suc j)) e h = absurd (ground (arith, h))

file-IsWritten : IsWritten file
file-IsWritten = record {
  version_size = refl;
  reserved_size = refl;
  few_entries = omega arith;
  few_kinds = omega arith;
  short_text = omega arith;
  known = file-known;
}

file_held : held file ≡ zone
file_held = refl

read_time_zone_file-bytes_example :
    read_time_zone_file (some (file_bytes file)) ≡ ok (true, held file)
read_time_zone_file-bytes_example = read_time_zone_file-bytes file file-IsWritten

to_local_time-foreign_example :
    (zone' : Option Data) × (make_zone (some (codes "GIF89a")) ≡ ok zone')
    × (valid zone' ≡ true)
    × (to_local_time gmtime timegm (pos 5000) zone' ≡ err undefined)
to_local_time-foreign_example =
    to_local_time-foreign gmtime timegm (some (codes "GIF89a")) (pos 5000) refl
