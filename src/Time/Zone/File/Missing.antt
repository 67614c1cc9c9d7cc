-- ===== src/Time/Zone/File/Missing.antt =====
-- master/base/TimeZone.cc: what a zone does whose file could not be read.
use pp_d_scache.Base.{Option, some, true, ok, err, undefined, ◌≡◌, refl}
use pp_d_scache.Base.Int.{ℤ}
use pp_d_scache.Base.Text.{Str}
use pp_d_scache.Time.Zone.{Tm}
use pp_d_scache.Time.Zone.Local.{Data, to_local_time, find_localtime}
use pp_d_scache.Time.Zone.File.{empty, make_zone, valid}
use pp_d_scache.Time.Zone.File.Whole.{IsForeign, read_time_zone_file-foreign}

-- The constructor makes a zone from a file that is missing or has another head for which `valid` holds,
-- and every conversion to local time with it takes the first of no local times, which is undefined.
pub to_local_time-foreign :
    (gmtime : ℤ → Tm) (timegm : Tm → ℤ) (file : Option Str) (seconds : ℤ)
    → IsForeign file
    → (zone : Option Data) × (make_zone file ≡ ok zone)
      × (valid zone ≡ true)
      × (to_local_time gmtime timegm seconds zone ≡ err undefined)
unfolding make_zone valid to_local_time find_localtime
to_local_time-foreign gmtime timegm file seconds h =
    (some empty, rw (read_time_zone_file-foreign file h) refl, refl, refl)
