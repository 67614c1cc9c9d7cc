-- ===== src/Time/Zone/File/Written.antt =====
-- master/base/TimeZone.cc: that the reader gives back the zone that a file in the format of version 1
-- holds, and what becomes of other files.
use mathlib.Core.List.{append_assoc, append-nil}
use pp_d_scache.Base.{
  ℕ, zero, suc, ◌%◌, ◌^◌, ◌<◌, ◌≤◌, not, List, [], ◌∷◌, ◌++◌, none, some, ◌==◌, length, get_elem?,
  map, ◌≡◌, ◌≢◌, refl, ap, sym, ◌∙◌, arith, take-append, drop-append, length-append, le→leb, inl,
  inr, Option-cases,
}
use pp_d_scache.Base.Int.{ℤ, pos, ◌+ℤ◌}
use pp_d_scache.Base.Text.{Str}
use pp_d_scache.Net.Buffer.Ints.{network_to_host, host_to_network}
use pp_d_scache.Net.Buffer.RoundTrip.{length-host_to_network}
use pp_d_scache.Time.Zone.Local.{Transition, Localtime, Data}
use pp_d_scache.Time.Zone.File.{
  State, returns, Reader, ◌>>=◌, read_chunk, signed, read_int32, read_uint8, repeat, read_localtime,
  push_transition, push_transitions,
}

abbrev pub at : Str → Data → State
at s z = record { rest = s; zone = z }

pub read_chunk-append :
    (n : ℕ) (s r : Str) (z : Data)
    → length s ≡ n
    → read_chunk n (at (s ++ r) z) ≡ returns s (at r z)
unfolding read_chunk
read_chunk-append n s r z size =
    let enough : n ≤ length (s ++ r) = omega (arith, length-append s r, size) in
    rw (le→leb n (length (s ++ r)) enough, take-append n s r size, drop-append n s r size) refl

-- A part that returns is followed by the next one.
pub bind-returns :
    {A B : Type 0} (first : Reader A) (next : A → Reader B) (s t : State) (a : A)
    → first s ≡ returns a t
    → (first >>= next) s ≡ next a t
bind-returns first next s t a h = rw (h, ◌>>=◌) refl

-- An integer of four bytes, and one of one byte.
abbrev pub int_at : ℕ → Str
int_at x = host_to_network 4 x

int_value : (x : ℕ) → network_to_host 0 (int_at x) ≡ x % 2 ^ 32
unfolding network_to_host host_to_network
int_value x = omega arith

pub read_int32-int_at :
    (x : ℕ) (r : Str) (z : Data)
    → read_int32 (at (int_at x ++ r) z) ≡ returns (signed (x % 2 ^ 32)) (at r z)
unfolding read_int32
read_int32-int_at x r z =
    bind-returns (read_chunk 4) (λ s. returns (signed (network_to_host 0 s))) (at (int_at x ++ r) z)
      (at r z) (int_at x) (read_chunk-append 4 (int_at x) r z (length-host_to_network 4 x))
    ∙ ap (λ (v : ℕ). returns (signed v) (at r z)) (int_value x)

byte_value : (x : ℕ) → network_to_host 0 (host_to_network 1 x) ≡ x % 256
unfolding network_to_host host_to_network
byte_value x = omega arith

pub read_uint8-byte :
    (x : ℕ) (r : Str) (z : Data)
    → read_uint8 (at (host_to_network 1 x ++ r) z) ≡ returns (x % 256) (at r z)
unfolding read_uint8
read_uint8-byte x r z =
    bind-returns (read_chunk 1) (λ s. returns (network_to_host 0 s))
      (at (host_to_network 1 x ++ r) z) (at r z) (host_to_network 1 x)
      (read_chunk-append 1 (host_to_network 1 x) r z (length-host_to_network 1 x))
    ∙ ap (λ (v : ℕ). returns v (at r z)) (byte_value x)

-- The bytes of the elements of a list.
abbrev pub all_bytes : {A : Type 0} → (A → Str) → List A → Str
all_bytes f [] = []
all_bytes f (x ∷ xs) = f x ++ all_bytes f xs

pub repeat-all_bytes :
    {A B : Type 0} (f : A → Str) (value : A → B) (read : Reader B)
    → ((x : A) (r : Str) (z : Data) → read (at (f x ++ r) z) ≡ returns (value x) (at r z))
    → (xs : List A) (r : Str) (z : Data)
    → repeat read (length xs) (at (all_bytes f xs ++ r) z) ≡ returns (map value xs) (at r z)
unfolding repeat
repeat-all_bytes f value read h [] r z = refl
repeat-all_bytes {A} {B} f value read h (x ∷ xs) r z =
    let more : B → List B → Reader (List B) = λ y ys. returns (y ∷ ys) in
    ap (λ (b : Str). repeat read (suc (length xs)) (at b z)) (append_assoc (f x) (all_bytes f xs) r)
    ∙ bind-returns read (λ y. repeat read (length xs) >>= more y)
        (at (f x ++ (all_bytes f xs ++ r)) z) (at (all_bytes f xs ++ r) z) (value x)
        (h x (all_bytes f xs ++ r) z)
    ∙ bind-returns (repeat read (length xs)) (more (value x)) (at (all_bytes f xs ++ r) z) (at r z)
        (map value xs) (repeat-all_bytes f value read h xs r z)

-- A local time in the file: the bit pattern of its offset, and its two bytes.
pub record Kind : Type 0 where
  pub gmtoff : ℕ
  pub isdst : ℕ
  pub abbrind : ℕ

abbrev pub kind_bytes : Kind → Str
kind_bytes k = int_at k.gmtoff ++ (host_to_network 1 k.isdst ++ host_to_network 1 k.abbrind)

abbrev pub local_of : Kind → Localtime
local_of k = record {
  gmt_offset = signed (k.gmtoff % 2 ^ 32);
  is_dst = not (k.isdst % 256 == 0);
  arrb_idx = k.abbrind % 256;
}

abbrev pub with_localtimes : Data → List Localtime → Data
with_localtimes z ls = record z { localtimes = z.localtimes ++ ls }

read_localtime-kind_bytes :
    (k : Kind) (r : Str) (z : Data)
    → read_localtime (at (kind_bytes k ++ r) z)
      ≡ returns tt (at r (with_localtimes z (local_of k ∷ [])))
unfolding read_localtime
read_localtime-kind_bytes k r z =
    let a = host_to_network 1 k.isdst in
    let b = host_to_network 1 k.abbrind in
    let push : ℤ → ℕ → ℕ → Reader (Unit {0}) = λ gmtoff isdst abbrind t. returns tt (
      at t.rest (
        with_localtimes t.zone
          (record { gmt_offset = gmtoff; is_dst = not (isdst == 0); arrb_idx = abbrind } ∷ []))) in
    ap (λ (s : Str). read_localtime (at s z))
      (append_assoc (int_at k.gmtoff) (a ++ b) r
        ∙ ap (λ (s : Str). int_at k.gmtoff ++ s) (append_assoc a b r))
    ∙ bind-returns read_int32 (λ g. read_uint8 >>= λ i. read_uint8 >>= push g i)
        (at (int_at k.gmtoff ++ (a ++ (b ++ r))) z) (at (a ++ (b ++ r)) z)
        (signed (k.gmtoff % 2 ^ 32)) (read_int32-int_at k.gmtoff (a ++ (b ++ r)) z)
    ∙ bind-returns read_uint8 (λ i. read_uint8 >>= push (signed (k.gmtoff % 2 ^ 32)) i)
        (at (a ++ (b ++ r)) z) (at (b ++ r) z) (k.isdst % 256) (read_uint8-byte k.isdst (b ++ r) z)
    ∙ bind-returns read_uint8 (push (signed (k.gmtoff % 2 ^ 32)) (k.isdst % 256)) (at (b ++ r) z)
        (at r z) (k.abbrind % 256) (read_uint8-byte k.abbrind r z)

pub units : {A : Type 0} → List A → List (Unit {0})
units [] = []
units (x ∷ xs) = tt ∷ units xs

pub repeat-kinds :
    (ks : List Kind) (r : Str) (z : Data)
    → repeat read_localtime (length ks) (at (all_bytes kind_bytes ks ++ r) z)
      ≡ returns (units ks) (at r (with_localtimes z (map local_of ks)))
unfolding repeat units
repeat-kinds [] r z =
    ap (λ (l : List Localtime). returns [] (at r (record z { localtimes = l })))
      (sym (append-nil z.localtimes))
repeat-kinds (k ∷ ks) r z =
    let more : Unit {0} → List (Unit {0}) → Reader (List (Unit {0})) = λ y ys. returns (y ∷ ys) in
    let z1 = with_localtimes z (local_of k ∷ []) in
    ap (λ (b : Str). repeat read_localtime (suc (length ks)) (at b z))
      (append_assoc (kind_bytes k) (all_bytes kind_bytes ks) r)
    ∙ bind-returns read_localtime (λ y. repeat read_localtime (length ks) >>= more y)
        (at (kind_bytes k ++ (all_bytes kind_bytes ks ++ r)) z)
        (at (all_bytes kind_bytes ks ++ r) z1) tt
        (read_localtime-kind_bytes k (all_bytes kind_bytes ks ++ r) z)
    ∙ bind-returns (repeat read_localtime (length ks)) (more tt)
        (at (all_bytes kind_bytes ks ++ r) z1) (at r (with_localtimes z1 (map local_of ks)))
        (units ks) (repeat-kinds ks r z1)
    ∙ ap (λ (l : List Localtime). returns (tt ∷ units ks) (at r (record z { localtimes = l })))
        (append_assoc z.localtimes (local_of k ∷ []) (map local_of ks))

-- A transition in the file: the bit pattern of its time, and the index of its local time.
abbrev pub Entry : Type 0
Entry = ℕ × ℕ

abbrev pub trans_of : Entry → ℤ
trans_of e = signed (e.0 % 2 ^ 32)

abbrev pub idx_of : Entry → ℕ
idx_of e = e.1 % 256

abbrev pub made : List Localtime → Entry → Transition
made ls e = record {
  gmttime = trans_of e;
  localtime =
      trans_of e +ℤ (elim (get_elem? ls (idx_of e)) [ none ↦ pos 0 | some l ↦ l.gmt_offset ]);
  localtime_idx = idx_of e;
}

abbrev pub with_transitions : Data → List Transition → Data
with_transitions z ts = record z { transitions = z.transitions ++ ts }

get_elem?-within : {A : Type 0} (l : List A) (i : ℕ) → i < length l → get_elem? l i ≢ none
get_elem?-within [] i h e = absurd (omega (arith, h))
get_elem?-within (x ∷ l) zero h e = absurd (ground (arith, e))
get_elem?-within (x ∷ l) (suc i) h e = get_elem?-within l i (omega (arith, h)) e

push_transition-made :
    (e : Entry) (r : Str) (z : Data)
    → idx_of e < length z.localtimes
    → push_transition (trans_of e) (idx_of e) (at r z)
      ≡ returns tt (at r (with_transitions z (made z.localtimes e ∷ [])))
unfolding push_transition
push_transition-made e r z known = elim (Option-cases (get_elem? z.localtimes (idx_of e))) [
  | inl w ↦ absurd (get_elem?-within z.localtimes (idx_of e) known w)
  | inr w ↦ rw w.1 refl
]

pub push_transitions-made :
    (es : List Entry) (r : Str) (z : Data)
    → ((j : ℕ) (e : Entry) → get_elem? es j ≡ some e → idx_of e < length z.localtimes)
    → push_transitions (map trans_of es) (map idx_of es) (at r z)
      ≡ returns tt (at r (with_transitions z (map (made z.localtimes) es)))
unfolding push_transitions
push_transitions-made [] r z known =
    ap (λ (l : List Transition). returns tt (at r (record z { transitions = l })))
      (sym (append-nil z.transitions))
push_transitions-made (e ∷ es) r z known =
    let z1 = with_transitions z (made z.localtimes e ∷ []) in
    bind-returns (push_transition (trans_of e) (idx_of e))
      (λ u. push_transitions (map trans_of es) (map idx_of es)) (at r z) (at r z1) tt
      (push_transition-made e r z (known 0 e refl))
    ∙ push_transitions-made es r z1 (λ j. known (suc j))
    ∙ ap (λ (l : List Transition). returns tt (at r (record z { transitions = l })))
        (append_assoc z.transitions (made z.localtimes e ∷ []) (map (made z.localtimes) es))
