-- ===== src/Time/Zone/File.antt =====
-- master/base/TimeZone.cc: `readTimeZoneFile` and `TimeZone(const char*)`, over the bytes of the file.
-- What was stored before a `logic_error` stays.
pub mod Written
pub mod Whole
pub mod Missing
use pp_d_scache.Base.{
  ℕ, zero, suc, ◌+◌, ◌-◌, ◌*◌, ◌^◌, Bool, true, false, not, List, [], ◌∷◌, ◌++◌, Option, none, some,
  leb, ltb, ◌==◌, if◌then◌else◌, Result, ok, err, undefined, length, get_elem?, take, drop,
}
use pp_d_scache.Base.Int.{ℤ, pos, negsuc, ◌+ℤ◌}
use pp_d_scache.Base.Text.{Str, codes, str_eq}
use pp_d_scache.Net.Buffer.Ints.{network_to_host}
use pp_d_scache.Time.Zone.Local.{Transition, Localtime, Data}

-- The bytes that are left in the file, and the data that the reader fills.
pub record State : Type 0 where
  pub rest : Str
  pub zone : Data

-- A part of the reader returns, throws a `logic_error`, or has undefined behaviour.
pub data Outcome (A : Type 0) : Type 0 where
  returns : A → State → Outcome A
  throws : Data → Outcome A
  fails : Outcome A

abbrev pub Reader : Type 0 → Type 0
Reader A = State → Outcome A

infixl 5 ◌>>=◌ ◌>>◌
abbrev pub ◌>>=◌ : {A B : Type 0} → Reader A → (A → Reader B) → Reader B
(first >>= next) s = elim (first s) [ returns a t ↦ next a t | throws z ↦ throws z | fails ↦ fails ]

abbrev pub ◌>>◌ : {B : Type 0} → Reader (Unit {0}) → Reader B → Reader B
first >> second = first >>= λ _. second

-- `fread` of `n` bytes, and the test that it gave them all.
unfoldable pub read_chunk : ℕ → Reader Str
read_chunk n s =
    if leb n (length s.rest)
    then returns (take n s.rest) (record s { rest = drop n s.rest })
    else throws s.zone

-- The array of a negative size is undefined.
unfoldable pub read_bytes : ℤ → Reader Str
read_bytes (pos n) s = read_chunk n s
read_bytes (negsuc n) s = fails

-- The `int32_t` of a bit pattern.
abbrev pub signed : ℕ → ℤ
signed x = if ltb x (2 ^ 31) then pos x else negsuc (2 ^ 32 - 1 - x)

unfoldable pub read_int32 : Reader ℤ
read_int32 = read_chunk 4 >>= λ s t. returns (signed (network_to_host 0 s)) t

unfoldable pub read_uint8 : Reader ℕ
read_uint8 = read_chunk 1 >>= λ s t. returns (network_to_host 0 s) t

-- `reserve` of a negative number throws a `length_error`, which is a `logic_error`.
unfoldable pub reserve : ℤ → Reader (Unit {0})
reserve (pos n) s = returns tt s
reserve (negsuc n) s = throws s.zone

-- The number of rounds of a loop up to an `int`.
abbrev pub rounds : ℤ → ℕ
rounds (pos n) = n
rounds (negsuc n) = 0

-- The elements that `n` rounds of a loop push back.
unfoldable pub repeat : {A : Type 0} → Reader A → ℕ → Reader (List A)
repeat read zero s = returns [] s
repeat read (suc n) s = (read >>= λ x. repeat read n >>= λ xs t. returns (x ∷ xs) t) s

-- One round of the loop over the local times.
unfoldable pub read_localtime : Reader (Unit {0})
read_localtime = read_int32 >>= λ gmtoff. read_uint8 >>= λ isdst. read_uint8 >>= λ abbrind t.
    returns tt (record t {
      zone = record t.zone {
        localtimes =
            t.zone.localtimes
            ++ (record { gmt_offset = gmtoff; is_dst = not (isdst == 0); arrb_idx = abbrind } ∷ []);
      };
    })

-- One round of the loop over the transitions; an index of no local time is undefined.
unfoldable pub push_transition : ℤ → ℕ → Reader (Unit {0})
push_transition trans local_idx s = elim (get_elem? s.zone.localtimes local_idx) [
  | none ↦ fails
  | some l ↦ returns tt (record s {
    zone = record s.zone {
      transitions =
          s.zone.transitions
          ++ (record {
            gmttime = trans;
            localtime = trans +ℤ l.gmt_offset;
            localtime_idx = local_idx;
          }
              ∷ []);
    };
  })
]

unfoldable pub push_transitions : List ℤ → List ℕ → Reader (Unit {0})
push_transitions (x ∷ xs) (i ∷ is) s = (push_transition x i >> push_transitions xs is) s
push_transitions [] is s = returns tt s
push_transitions (x ∷ xs) [] s = fails

-- The text of the head.
unfoldable pub check_head : Reader (Unit {0})
check_head =
    read_chunk 4 >>= λ head s. if str_eq head (codes "TZif") then returns tt s else throws s.zone

-- The header: `timecnt`, `typecnt` and `charcnt`; the other counts are read and not used.
unfoldable pub read_header : Reader (ℤ × ℤ × ℤ)
read_header =
    check_head
    >> (read_chunk 1 >>= λ version. read_chunk 15 >>= λ reserved. read_int32 >>= λ isgmtcnt.
        read_int32 >>= λ isstdcnt. read_int32 >>= λ leapcnt. read_int32 >>= λ timecnt.
        read_int32 >>= λ typecnt. read_int32 >>= λ charcnt t. returns (timecnt, typecnt, charcnt) t)

-- The rest of the file, from the counts on.
unfoldable pub read_body : ℤ × ℤ × ℤ → Reader (Unit {0})
read_body (timecnt, typecnt, charcnt) =
    reserve timecnt
    >> (repeat read_int32 (rounds timecnt) >>= λ trans.
        repeat read_uint8 (rounds timecnt) >>= λ localtimes.
        repeat read_localtime (rounds typecnt) >>= λ done.
        push_transitions trans localtimes
        >> (read_bytes charcnt >>= λ text t.
            returns tt (record t { zone = record t.zone { abbreviation = text } })))

abbrev pub empty : Data
empty = record { transitions = []; localtimes = []; abbreviation = [] }

-- `readTimeZoneFile` ends with `return true`.
abbrev pub with_true : Result Data → Result (Bool × Data)
with_true (ok zone) = ok (true, zone)
with_true (err x) = err x

-- The test of the constructor.
abbrev pub from_read : Result (Bool × Data) → Result (Option Data)
from_read (ok (is_read, zone)) = ok (if is_read then some zone else none)
from_read (err x) = err x

-- The data after the `catch`.
unfoldable pub caught : Outcome (Unit {0}) → Result Data
caught (returns u s) = ok s.zone
caught (throws z) = ok z
caught fails = err undefined

-- `readTimeZoneFile` of a file that does not open or of its bytes, into empty data: what it returns, and
-- the data that it leaves.
unfoldable pub read_time_zone_file : Option Str → Result (Bool × Data)
read_time_zone_file none = ok (true, empty)
read_time_zone_file (some bytes) =
    with_true (caught ((read_header >>= read_body) (record { rest = bytes; zone = empty })))

-- `TimeZone(const char*)`: the data, or none where `data_` is reset.
unfoldable pub make_zone : Option Str → Result (Option Data)
make_zone file = from_read (read_time_zone_file file)

unfoldable pub valid : Option Data → Bool
valid none = false
valid (some zone) = true
