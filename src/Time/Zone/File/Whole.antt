-- ===== src/Time/Zone/File/Whole.antt =====
-- master/base/TimeZone.cc: that the reader gives back the zone that a file in the format of version 1
-- holds, and what becomes of other files.
use pp_d_scache.Base.{
  ℕ, suc, ◌%◌, ◌^◌, ◌<◌, true, false, List, [], ◌∷◌, ◌++◌, Option, none, some, leb, ltb, ok, length,
  get_elem?, take, map, ◌≡◌, refl, ap, sym, ◌∙◌, subst, arith, Bool-cases, inl, inr,
}
use pp_d_scache.Base.Int.{pos}
use pp_d_scache.Base.Text.{Str, codes, str_eq}
use pp_d_scache.Net.Buffer.Ints.{host_to_network}
use pp_d_scache.Time.Zone.Local.{Data}
use pp_d_scache.Time.Zone.File.{
  returns, throws, ◌>>=◌, read_chunk, read_bytes, signed, read_int32, read_uint8, reserve,
  check_head, read_header, read_body, empty, caught, with_true, read_time_zone_file,
}
use pp_d_scache.Time.Zone.File.Written.{
  at, int_at, all_bytes, kind_bytes, Kind, Entry, trans_of, idx_of, made, local_of,
  read_int32-int_at, read_uint8-byte, read_chunk-append, repeat-all_bytes, repeat-kinds,
  push_transitions-made, bind-returns, with_localtimes, with_transitions,
}

-- A file in the format of version 1: the fields that the reader does not use, the transitions, the
-- local times and the text. What follows the text is not read.
pub record ZoneFile : Type 0 where
  pub version : Str
  pub reserved : Str
  pub isgmtcnt : ℕ
  pub isstdcnt : ℕ
  pub leapcnt : ℕ
  pub entries : List Entry
  pub kinds : List Kind
  pub text : Str
  pub after : Str

abbrev pub body_bytes : ZoneFile → Str
body_bytes f =
    all_bytes (λ e. int_at e.0) f.entries
    ++ (all_bytes (λ e. host_to_network 1 e.1) f.entries
        ++ (all_bytes kind_bytes f.kinds ++ (f.text ++ f.after)))

abbrev pub file_bytes : ZoneFile → Str
file_bytes f =
    codes "TZif"
    ++ (f.version
        ++ (f.reserved
            ++ (int_at f.isgmtcnt
                ++ (int_at f.isstdcnt
                    ++ (int_at f.leapcnt
                        ++ (int_at (length f.entries)
                            ++ (int_at (length f.kinds)
                                ++ (int_at (length f.text) ++ body_bytes f))))))))

pub record IsWritten (f : ZoneFile) : Type 0 where
  pub version_size : length f.version ≡ 1
  pub reserved_size : length f.reserved ≡ 15
  pub few_entries : length f.entries < 2 ^ 31
  pub few_kinds : length f.kinds < 2 ^ 31
  pub short_text : length f.text < 2 ^ 31
  pub known : (j : ℕ) (e : Entry) → get_elem? f.entries j ≡ some e → idx_of e < length f.kinds

signed_small : (n : ℕ) → n < 2 ^ 31 → signed (n % 2 ^ 32) ≡ pos n
signed_small n h =
    let same : n % 2 ^ 32 ≡ n = omega (arith, h) in
    let low : ltb n (2 ^ 31) ≡ true = ground (arith, h) in rw (same, low) refl

read_header-bytes :
    (f : ZoneFile)
    → IsWritten f
    → read_header (at (file_bytes f) empty)
      ≡ returns
          (pos (length f.entries), pos (length f.kinds), pos (length f.text))
          (at (body_bytes f) empty)
unfolding read_header check_head
read_header-bytes f w =
    let r7 = body_bytes f in
    let r6 = int_at (length f.text) ++ r7 in
    let r5 = int_at (length f.kinds) ++ r6 in
    let r4 = int_at (length f.entries) ++ r5 in
    let r3 = int_at f.leapcnt ++ r4 in
    let r2 = int_at f.isstdcnt ++ r3 in
    let r1 = int_at f.isgmtcnt ++ r2 in
    let r0 = f.reserved ++ r1 in
    rw
      (
        read_chunk-append 4 (codes "TZif") (f.version ++ r0) empty refl,
        ◌>>=◌,
        read_chunk-append 1 f.version r0 empty w.version_size,
        read_chunk-append 15 f.reserved r1 empty w.reserved_size,
        read_int32-int_at f.isgmtcnt r2 empty,
        read_int32-int_at f.isstdcnt r3 empty,
        read_int32-int_at f.leapcnt r4 empty,
        read_int32-int_at (length f.entries) r5 empty,
        read_int32-int_at (length f.kinds) r6 empty,
        read_int32-int_at (length f.text) r7 empty,
        signed_small (length f.entries) w.few_entries,
        signed_small (length f.kinds) w.few_kinds,
        signed_small (length f.text) w.short_text,
      )
      refl

-- The zone that a file holds.
abbrev pub held : ZoneFile → Data
held f = record {
  transitions = map (made (map local_of f.kinds)) f.entries;
  localtimes = map local_of f.kinds;
  abbreviation = f.text;
}

length-local_of : (ks : List Kind) → length (map local_of ks) ≡ length ks
length-local_of [] = refl
length-local_of (k ∷ ks) = ap suc (length-local_of ks)

read_body-bytes :
    (f : ZoneFile)
    → IsWritten f
    → read_body
        (pos (length f.entries), pos (length f.kinds), pos (length f.text))
        (at (body_bytes f) empty)
      ≡ returns tt (at f.after (held f))
unfolding read_body reserve read_bytes
read_body-bytes f w =
    let r3 = f.text ++ f.after in
    let r2 = all_bytes kind_bytes f.kinds ++ r3 in
    let r1 = all_bytes (λ (e : Entry). host_to_network 1 e.1) f.entries ++ r2 in
    let z1 = with_localtimes empty (map local_of f.kinds) in
    let z2 = with_transitions z1 (map (made z1.localtimes) f.entries) in
    let known = λ (j : ℕ) (e : Entry) (h : get_elem? f.entries j ≡ some e).
      subst (λ (n : ℕ). idx_of e < n) (sym (length-local_of f.kinds)) (w.known j e h) in
    rw
      (
        repeat-all_bytes (λ (e : Entry). int_at e.0) trans_of read_int32
            (λ e r z. read_int32-int_at e.0 r z) f.entries r1 empty,
        ◌>>=◌,
        repeat-all_bytes (λ (e : Entry). host_to_network 1 e.1) idx_of read_uint8
            (λ e r z. read_uint8-byte e.1 r z) f.entries r2 empty,
        repeat-kinds f.kinds r3 empty,
        push_transitions-made f.entries r3 z1 known,
        read_chunk-append (length f.text) f.text f.after z2 refl,
      )
      refl

-- Of a file of the format, whose counts fit and whose indices are those of local times, the reader
-- returns true and gives back the zone that it holds, whatever follows: each transition with its local time, which is
-- its own plus the offset of its local time, the local times and the text.
pub read_time_zone_file-bytes :
    (f : ZoneFile) → IsWritten f → read_time_zone_file (some (file_bytes f)) ≡ ok (true, held f)
unfolding read_time_zone_file caught
read_time_zone_file-bytes f w =
    ap (λ o. with_true (caught o))
      (bind-returns read_header read_body (at (file_bytes f) empty) (at (body_bytes f) empty)
          (pos (length f.entries), pos (length f.kinds), pos (length f.text))
          (read_header-bytes f w)
        ∙ read_body-bytes f w)

check_head-foreign :
    (s : Str) → str_eq (take 4 s) (codes "TZif") ≡ false → check_head (at s empty) ≡ throws empty
unfolding check_head read_chunk
check_head-foreign s h = elim (Bool-cases (leb 4 (length s))) [
  | inl w ↦ rw (◌>>=◌, w, h) refl
  | inr w ↦ rw (◌>>=◌, w) refl
]

read_header-foreign :
    (s : Str)
    → check_head (at s empty) ≡ throws empty
    → (read_header >>= read_body) (at s empty) ≡ throws empty
unfolding read_header
read_header-foreign s h = rw (h, ◌>>=◌) refl

-- No file, or one with another head.
abbrev pub IsForeign : Option Str → Type 0
IsForeign none = Unit {0}
IsForeign (some s) = str_eq (take 4 s) (codes "TZif") ≡ false

-- Of a file that is missing or has another head the reader returns true and leaves no local times at all.
pub read_time_zone_file-foreign :
    (file : Option Str) → IsForeign file → read_time_zone_file file ≡ ok (true, empty)
unfolding read_time_zone_file caught
read_time_zone_file-foreign none h = refl
read_time_zone_file-foreign (some s) h =
    ap (λ o. with_true (caught o)) (read_header-foreign s (check_head-foreign s h))
