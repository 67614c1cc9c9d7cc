-- ===== src/Net/Buffer/Find.antt =====
-- The two searches of the buffer find the first place, and none only where there is none.
use pp_d_scache.Base.{
  ℕ, zero, suc, ◌≤◌, ◌<◌, ◌≡◌, Bool-cases, inl, inr, ◌&&◌, [], ◌∷◌, Option, none, some, get_elem?,
  drop, arith, le→leb, ◌==◌, ok,
}
use pp_d_scache.Base.Text.{Str}
use pp_d_scache.Net.Buffer.{
  Buffer, content, readable_bytes, search_crlf, search_eol, find_crlf_from, find_eol_from,
  find_crlf, find_eol,
}

-- A line end, and a carriage return with a line end behind it, at the position `i`.
abbrev pub IsEol : Str → ℕ → Type 0
IsEol s i = get_elem? s i ≡ some 10

abbrev pub IsCrlf : Str → ℕ → Type 0
IsCrlf s i = (get_elem? s i ≡ some 13) × (get_elem? s (suc i) ≡ some 10)

-- The outcome of a search for the first position with `P`.
abbrev pub IsFirst : (ℕ → Type 0) → Option ℕ → Type 0
IsFirst P none = (i : ℕ) → ¬ P i
IsFirst P (some n) = P n × ((i : ℕ) → i < n → ¬ P i)

-- A search that goes on behind a position without `P`.
IsFirst-shift :
    (P Q : ℕ → Type 0) (o : Option ℕ)
    → ¬ P 0
    → ((i : ℕ) → P (suc i) → Q i)
    → ((i : ℕ) → Q i → P (suc i))
    → IsFirst Q o
    → IsFirst P (elim o [ none ↦ none | some n ↦ some (suc n) ])
IsFirst-shift P Q none here down up f =
    λ i. elim i as (λ k. ¬ P k) [ zero ↦ here | suc j ↦ λ p. f j (down j p) ]
IsFirst-shift P Q (some n) here down up f = (
  up n f.0,
  λ i. elim i as (λ k. k < suc n → ¬ P k) [
    | zero ↦ λ h. here
    | suc j ↦ λ h p. f.1 j (omega arith) (down j p)
  ],
)

search_eol-IsFirst : (s : Str) → IsFirst (IsEol s) (search_eol s)
unfolding search_eol
search_eol-IsFirst [] = λ i h. cc
search_eol-IsFirst (a ∷ s) = elim (Bool-cases (a == 10)) [
  | inl here ↦ rw here (ground arith, λ i h. absurd (omega arith))
  | inr other ↦ rw other (
      IsFirst-shift (IsEol (a ∷ s)) (IsEol s) (search_eol s) (λ h. ground arith) (λ i h. h)
        (λ i h. h) (search_eol-IsFirst s))
]

search_crlf-IsFirst : (s : Str) → IsFirst (IsCrlf s) (search_crlf s)
unfolding search_crlf
search_crlf-IsFirst [] = λ i h. absurd cc
search_crlf-IsFirst (a ∷ []) = λ i h. absurd cc
search_crlf-IsFirst (a ∷ b ∷ s) = elim (Bool-cases (a == 13 && b == 10)) [
  | inl here ↦ rw here ((ground arith, ground arith), λ i h. absurd (omega arith))
  | inr other ↦ rw other (
      IsFirst-shift (IsCrlf (a ∷ b ∷ s)) (IsCrlf (b ∷ s)) (search_crlf (b ∷ s)) (λ h. ground arith)
        (λ i h. h) (λ i h. h) (search_crlf-IsFirst (b ∷ s)))
]

-- From a start within the content each search returns the first place behind it, and none only where
-- there is none; and the searches without a start are those from the start 0.
find-IsFirst :
    (start : ℕ) (b : Buffer)
    → start ≤ readable_bytes b
    → ((r : Option ℕ) × (find_crlf_from start b ≡ ok r)
        × IsFirst (IsCrlf (drop start (content b))) r)
      × ((r : Option ℕ) × (find_eol_from start b ≡ ok r)
          × IsFirst (IsEol (drop start (content b))) r)
      × (find_crlf_from 0 b ≡ ok (find_crlf b))
      × (find_eol_from 0 b ≡ ok (find_eol b))
unfolding find_crlf_from find_eol_from find_crlf find_eol
find-IsFirst start b h =
    let s = drop start (content b) in
    (
      (search_crlf s, rw (le→leb start (readable_bytes b) h), search_crlf-IsFirst s),
      (search_eol s, rw (le→leb start (readable_bytes b) h), search_eol-IsFirst s),
      rw (le→leb 0 (readable_bytes b) (omega arith)),
      rw (le→leb 0 (readable_bytes b) (omega arith)),
    )
