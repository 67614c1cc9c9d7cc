-- ===== src/Time/Zone/Local/Search.antt =====
-- master/base/TimeZone.cc: which local time is in force, and what becomes of a time that is converted
-- to it and back.
use pp_d_scache.Base.{
  ℕ, zero, suc, ◌-◌, ◌≤◌, Bool, true, false, List, [], ◌∷◌, none, some, ◌==◌, ◌≡◌, refl, ap, ◌∙◌,
  if◌then◌else◌, ok, ◌>>=◌, length, get_elem?, drop, arith, Bool-cases, inl, inr, Option-cases,
  le→leb,
}
use pp_d_scache.Base.Int.{ℤ, int_eq, int_lt, ◌+ℤ◌, add-sub, int_lt_trans}
use pp_d_scache.Base.Arrays.{back}
use pp_d_scache.Time.Zone.{Tm}
use pp_d_scache.Time.Zone.Local.{
  Transition, Localtime, Data, time, less, equal, lower_bound, localtime_at, is_before,
  find_localtime, LocalTm, sentry_at, to_local_time, from_local_time, is_hour_back,
}

-- Each transition is later than the one before it.
pub record IsSorted (gmt : Bool) (ts : List Transition) : Type 0 where
  pub ascends :
      (i : ℕ) (a b : Transition)
      → get_elem? ts i ≡ some a
      → get_elem? ts (suc i) ≡ some b
      → less gmt a b ≡ true

-- The transition at `i` is the last one that is not later than the time.
pub record InForce (gmt : Bool) (sentry : Transition) (ts : List Transition) (i : ℕ)
    (t : Transition) : Type 0 where
  pub here : get_elem? ts i ≡ some t
  pub begun : less gmt sentry t ≡ false
  pub not_ended : (u : Transition) → get_elem? ts (suc i) ≡ some u → less gmt sentry u ≡ true

rest-IsSorted :
    (gmt : Bool) (t : Transition) (ts : List Transition) → IsSorted gmt (t ∷ ts) → IsSorted gmt ts
rest-IsSorted gmt t ts s = record { ascends = λ i a b. s.ascends (suc i) a b }

head_less :
    (gmt : Bool) (h : Transition) (ts : List Transition) (i : ℕ) (t : Transition)
    → IsSorted gmt (h ∷ ts)
    → get_elem? ts i ≡ some t
    → less gmt h t ≡ true
head_less gmt h (x ∷ ts) zero t s e = s.ascends 0 h t refl e
head_less gmt h (x ∷ ts) (suc i) t s e =
    let r = head_less gmt x ts i t (rest-IsSorted gmt h (x ∷ ts) s) e in
    int_lt_trans (time gmt h) (time gmt x) (time gmt t) (s.ascends 0 h x refl refl) r
head_less gmt h [] i t s e = absurd (ground (arith, e))

int_lt-eq : (a b : ℤ) → int_eq a b ≡ true → int_lt b a ≡ false
int_lt-eq a b h = ground (arith, h)

int_lt_total : (a b : ℤ) → int_lt a b ≡ false → int_eq a b ≡ false → int_lt b a ≡ true
int_lt_total a b h k = ground (arith, h, k)

int_lt_asym : (a b : ℤ) → int_lt a b ≡ true → int_lt b a ≡ false
int_lt_asym a b h = ground (arith, h)

int_lt-begun : (a b c : ℤ) → int_lt a b ≡ true → int_lt c b ≡ false → int_lt a c ≡ true
int_lt-begun a b c h k = ground (arith, h, k)

lower_bound-later :
    (gmt : Bool) (sentry : Transition) (ts : List Transition)
    → ((u : Transition) → get_elem? ts 0 ≡ some u → less gmt sentry u ≡ true)
    → lower_bound gmt sentry ts ≡ 0
unfolding lower_bound
lower_bound-later gmt sentry [] h = refl
lower_bound-later gmt sentry (u ∷ ts) h =
    rw (int_lt_asym (time gmt sentry) (time gmt u) (h u refl)) refl

lower_bound-step :
    (gmt : Bool) (sentry x : Transition) (ts : List Transition) (n : ℕ)
    → less gmt x sentry ≡ true
    → lower_bound gmt sentry ts ≡ n
    → lower_bound gmt sentry (x ∷ ts) ≡ suc n
unfolding lower_bound
lower_bound-step gmt sentry x ts n h e = rw (h, e) refl

lower_bound-InForce :
    (gmt : Bool) (sentry : Transition) (ts : List Transition) (i : ℕ) (t : Transition)
    → IsSorted gmt ts
    → InForce gmt sentry ts i t
    → lower_bound gmt sentry ts ≡ (if equal gmt sentry t then i else suc i)
lower_bound-InForce gmt sentry (x ∷ ts) zero t s f =
    let same : x ≡ t = ground (arith, f.here) in
    let later = lower_bound-later gmt sentry ts (λ u e. f.not_ended u e) in
    elim (Bool-cases (equal gmt sentry t)) [
      | inl w ↦ unfold lower_bound in rw (same, int_lt-eq (time gmt sentry) (time gmt t) w, w) refl
      | inr w ↦
          unfold lower_bound in
          rw (same, int_lt_total (time gmt sentry) (time gmt t) f.begun w, w, later) refl
    ]
lower_bound-InForce gmt sentry (x ∷ ts) (suc i) t s f =
    let g : InForce gmt sentry ts i t = record {
      here = f.here;
      begun = f.begun;
      not_ended = f.not_ended;
    } in
    let rest = lower_bound-InForce gmt sentry ts i t (rest-IsSorted gmt x ts s) g in
    let h =
      int_lt-begun (time gmt x) (time gmt t) (time gmt sentry) (head_less gmt x ts i t s f.here)
        f.begun in
    let step = lower_bound-step gmt sentry x ts (if equal gmt sentry t then i else suc i) h rest in
    elim (Bool-cases (equal gmt sentry t)) [ inl w ↦ step ∙ rw w refl | inr w ↦ step ∙ rw w refl ]
lower_bound-InForce gmt sentry [] i t s f = absurd (ground (arith, f.here))

int_lt-apart : (a b : ℤ) → int_lt a b ≡ true → int_eq a b ≡ false
int_lt-apart a b h = ground (arith, h)

back-here :
    {A : Type 0} (l : List A) (i : ℕ) (x : A)
    → get_elem? l i ≡ some x
    → get_elem? l (suc i) ≡ none
    → back l ≡ some x
back-here [] i x h e = absurd (ground (arith, h))
back-here (y ∷ []) zero x h e = h
back-here (y ∷ []) (suc i) x h e = absurd (ground (arith, h))
back-here (y ∷ z ∷ l) zero x h e = absurd (ground (arith, e))
back-here (y ∷ z ∷ l) (suc i) x h e = back-here (z ∷ l) i x h e

started :
    (gmt : Bool) (sentry : Transition) (ts : List Transition) (i : ℕ) (t : Transition)
    → IsSorted gmt ts
    → InForce gmt sentry ts i t
    → is_before gmt sentry ts ≡ false
started gmt sentry [] i t s f = absurd (ground (arith, f.here))
started gmt sentry (x ∷ ts) zero t s f = ground (arith, f.here, f.begun)
started gmt sentry (x ∷ ts) (suc i) t s f = int_lt_asym (time gmt x) (time gmt sentry) (
    int_lt-begun (time gmt x) (time gmt t) (time gmt sentry) (head_less gmt x ts i t s f.here)
      f.begun)

-- With sorted transitions, the local time is that of the last transition that is not later than the
-- time, whether the time is the transition's own, between two, or after the last.
find_localtime-InForce :
    (zone : Data) (sentry : Transition) (gmt : Bool) (i : ℕ) (t : Transition)
    → IsSorted gmt zone.transitions
    → InForce gmt sentry zone.transitions i t
    → find_localtime zone sentry gmt ≡ localtime_at zone t.localtime_idx
unfolding find_localtime
find_localtime-InForce zone sentry gmt i t s f =
    let b = started gmt sentry zone.transitions i t s f in
    let l = lower_bound-InForce gmt sentry zone.transitions i t s f in
    elim (Bool-cases (equal gmt sentry t)) [
      | inl w ↦ rw (b, l, w, f.here, w) refl
      | inr w ↦
          let l2 : lower_bound gmt sentry zone.transitions ≡ suc i = l ∙ rw w refl in
          elim (Option-cases (get_elem? zone.transitions (suc i))) [
            | inl n ↦
                let last : back zone.transitions ≡ some t =
                  back-here zone.transitions i t f.here n in
                rw (b, l2, n, last) refl
            | inr u ↦
                let later = f.not_ended u.0 u.1 in
                let apart = int_lt-apart (time gmt sentry) (time gmt u.0) later in
                let inner : (suc i == 0) ≡ false = ground arith in
                let at : get_elem? zone.transitions (suc i - 1) ≡ some t =
                  ap (get_elem? zone.transitions) (omega arith) ∙ f.here in
                rw (b, l2, u.1, apart, l2, inner, at) refl
          ]
    ]

module _ (gmtime : ℤ → Tm) (timegm : Tm → ℤ) (libc : (n : ℤ) → timegm (gmtime n) ≡ n)
    (zone : Data) where
  to_local_time_lem :
      (seconds : ℤ) (local : Localtime)
      → find_localtime zone (sentry_at true seconds) true ≡ ok local
      → local.arrb_idx ≤ length zone.abbreviation
      → to_local_time gmtime timegm seconds (some zone)
        ≡ ok (record {
          tm = gmtime (seconds +ℤ local.gmt_offset);
          is_dst = local.is_dst;
          gmt_offset = local.gmt_offset;
          zone = drop local.arrb_idx zone.abbreviation;
        })
  unfolding to_local_time
  to_local_time_lem seconds local g room =
      rw (g, le→leb local.arrb_idx (length zone.abbreviation) room) refl

  -- In summer time, the seconds that are tried are in summer time too.
  is_hour_back-dst :
      (seconds : ℤ) (local : Localtime) (tm : LocalTm)
      → local.is_dst ≡ true
      → find_localtime zone (sentry_at true seconds) true ≡ ok local
      → local.arrb_idx ≤ length zone.abbreviation
      → is_hour_back gmtime timegm tm seconds (some zone) ≡ ok false
  unfolding is_hour_back
  is_hour_back-dst seconds local tm dst g room =
      rw (to_local_time_lem seconds local g room, dst) refl

  there_and_back :
      (seconds : ℤ) (local : Localtime)
      → find_localtime zone (sentry_at true seconds) true ≡ ok local
      → find_localtime zone (sentry_at false (seconds +ℤ local.gmt_offset)) false ≡ ok local
      → local.arrb_idx ≤ length zone.abbreviation
      → (to_local_time gmtime timegm seconds (some zone) >>= λ tm.
          from_local_time gmtime timegm tm (some zone))
        ≡ ok seconds
  unfolding from_local_time
  there_and_back seconds local g h room =
      let undone = add-sub seconds local.gmt_offset in
      elim (Bool-cases local.is_dst) [
        | inl w ↦
            rw
              (
                to_local_time_lem seconds local g room,
                libc (seconds +ℤ local.gmt_offset),
                h,
                w,
                undone,
                is_hour_back-dst seconds local
                    (record {
                      tm = gmtime (seconds +ℤ local.gmt_offset);
                      is_dst = true;
                      gmt_offset = local.gmt_offset;
                      zone = drop local.arrb_idx zone.abbreviation;
                    })
                    w g room,
                undone,
              )
              refl
        | inr w ↦
            rw
              (
                to_local_time_lem seconds local g room,
                libc (seconds +ℤ local.gmt_offset),
                h,
                w,
                undone,
              )
              refl
      ]

-- A time that is converted to local time and back is the same again, where the transitions are
-- sorted by both of their times, one of them is the last that is not later than the seconds in UTC
-- and also than the local ones, its local time, of summer or not, is in the zone, the abbreviation
-- starts within the text, and `timegm` undoes `gmtime_r`.
pub from_local_time-to_local_time :
    (gmtime : ℤ → Tm) (timegm : Tm → ℤ) (libc : (n : ℤ) → timegm (gmtime n) ≡ n) (zone : Data)
    (seconds : ℤ) (i : ℕ) (t : Transition) (local : Localtime)
    → IsSorted true zone.transitions
    → IsSorted false zone.transitions
    → localtime_at zone t.localtime_idx ≡ ok local
    → local.arrb_idx ≤ length zone.abbreviation
    → InForce true (sentry_at true seconds) zone.transitions i t
    → InForce false (sentry_at false (seconds +ℤ local.gmt_offset)) zone.transitions i t
    → (to_local_time gmtime timegm seconds (some zone) >>= λ tm.
        from_local_time gmtime timegm tm (some zone))
      ≡ ok seconds
from_local_time-to_local_time gmtime timegm libc zone seconds i t local sg sl l room fg fl =
    let g = find_localtime-InForce zone (sentry_at true seconds) true i t sg fg ∙ l in
    let h =
      find_localtime-InForce zone (sentry_at false (seconds +ℤ local.gmt_offset)) false i t sl fl
      ∙ l in
    there_and_back gmtime timegm libc zone seconds local g h room
