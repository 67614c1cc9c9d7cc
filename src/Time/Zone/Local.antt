-- ===== src/Time/Zone/Local.antt =====
-- master/base/TimeZone.cc: the transitions of a zone, and the conversion to and from its local time.
-- `gmtime_r` and `timegm` are parameters. No `time_t` overflows.
pub mod Search
mod Examples
use pp_d_scache.Base.{
  ℕ, zero, suc, ◌-◌, Bool, true, false, not, ◌&&◌, ◌||◌, List, [], ◌∷◌, Option, none, some, ◌==◌,
  leb, if◌then◌else◌, Result, ok, err, ◌>>=◌, ◌>>◌, or_fault, undefined, length, get_elem?, drop,
}
use pp_d_scache.Base.Int.{ℤ, pos, negsuc, int_eq, int_lt, ◌+ℤ◌, ◌-ℤ◌}
use pp_d_scache.Base.Arrays.{back}
use pp_d_scache.Base.Text.{Str}
use pp_d_scache.Net.Buffer.{require}
use pp_d_scache.Time.Zone.{Tm}

pub record Transition : Type 0 where
  pub gmttime : ℤ
  pub localtime : ℤ
  pub localtime_idx : ℕ

pub record Localtime : Type 0 where
  pub gmt_offset : ℤ
  pub is_dst : Bool
  pub arrb_idx : ℕ

-- `TimeZone::Data`, without `names`, which nothing uses.
pub record Data : Type 0 where
  pub transitions : List Transition
  pub localtimes : List Localtime
  pub abbreviation : Str

-- What `Comp` compares, by its `compareGmt`.
abbrev pub time : Bool → Transition → ℤ
time compare_gmt t = if compare_gmt then t.gmttime else t.localtime

abbrev pub less : Bool → Transition → Transition → Bool
less compare_gmt a b = int_lt (time compare_gmt a) (time compare_gmt b)

abbrev pub equal : Bool → Transition → Transition → Bool
equal compare_gmt a b = int_eq (time compare_gmt a) (time compare_gmt b)

-- `std::lower_bound` of sorted transitions: the position of the first one that is not less.
unfoldable pub lower_bound : Bool → Transition → List Transition → ℕ
lower_bound gmt sentry [] = 0
lower_bound gmt sentry (t ∷ ts) =
    let rest = lower_bound gmt sentry ts in if less gmt t sentry then suc rest else 0

abbrev pub localtime_at : Data → ℕ → Result Localtime
localtime_at zone i = or_fault (get_elem? zone.localtimes i) undefined

-- Where the transitions are empty, or the first is later than the time.
abbrev pub is_before : Bool → Transition → List Transition → Bool
is_before gmt sentry [] = true
is_before gmt sentry (t ∷ ts) = less gmt sentry t

unfoldable pub find_localtime : Data → Transition → Bool → Result Localtime
find_localtime zone sentry gmt =
    if is_before gmt sentry zone.transitions
    then localtime_at zone 0
    else let i = lower_bound gmt sentry zone.transitions in
      elim (get_elem? zone.transitions i) [
        | none ↦ do
          last ← or_fault (back zone.transitions) undefined
          localtime_at zone last.localtime_idx
        | some t ↦
            if equal gmt sentry t
            then localtime_at zone t.localtime_idx
            else (require (not (i == 0)) >>= λ _.
                or_fault (get_elem? zone.transitions (i - 1)) undefined >>= λ previous.
                localtime_at zone previous.localtime_idx)
      ]

-- The `struct tm` of a local time, with `tm_isdst`, `tm_gmtoff` and `tm_zone`.
pub record LocalTm : Type 0 where
  pub tm : Tm
  pub is_dst : Bool
  pub gmt_offset : ℤ
  pub zone : Str

-- `TimeZone(eastOfUtc, name)`
abbrev pub fixed : ℤ → Str → Data
fixed east_of_utc name = record {
  transitions = [];
  localtimes = record { gmt_offset = east_of_utc; is_dst = false; arrb_idx = 0 } ∷ [];
  abbreviation = name;
}

abbrev pub sentry_at : Bool → ℤ → Transition
sentry_at gmt seconds = record {
  gmttime = if gmt then seconds else pos 0;
  localtime = if gmt then pos 0 else seconds;
  localtime_idx = 0;
}

module _ (gmtime : ℤ → Tm) (timegm : Tm → ℤ) where
  -- `data_` is null in an invalid zone; `&abbreviation[i]` is defined up to the end of the text.
  unfoldable pub to_local_time : ℤ → Option Data → Result LocalTm
  to_local_time seconds zone = do
    found ← or_fault zone undefined
    local ← find_localtime found (sentry_at true seconds) true
    require (leb local.arrb_idx (length found.abbreviation))
    ok (record {
      tm = gmtime (seconds +ℤ local.gmt_offset);
      is_dst = local.is_dst;
      gmt_offset = local.gmt_offset;
      zone = drop local.arrb_idx found.abbreviation;
    })

  -- Whether these seconds give the same hour and minute outside of the summer time.
  unfoldable pub is_hour_back : LocalTm → ℤ → Option Data → Result Bool
  is_hour_back local_tm seconds zone = do
    try_tm ← to_local_time seconds zone
    ok (
        not try_tm.is_dst
        && try_tm.tm.hour == local_tm.tm.hour
        && try_tm.tm.minute == local_tm.tm.minute)

  unfoldable pub from_local_time : LocalTm → Option Data → Result ℤ
  from_local_time local_tm zone = do
    found ← or_fault zone undefined
    let seconds = timegm local_tm.tm
    local ← find_localtime found (sentry_at false seconds) false
    hour_back ←
        (if local_tm.is_dst
          then is_hour_back local_tm (seconds -ℤ local.gmt_offset) zone
          else ok false)
    ok ((if hour_back then seconds -ℤ pos 3600 else seconds) -ℤ local.gmt_offset)
