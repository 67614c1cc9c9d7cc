-- ===== src/Master/Slots.antt =====
-- `rangeSetSlots`: the slots that it sets, and the ranges for which it is undefined.
use pp_d_scache.Base.{
  ℕ, zero, suc, ◌+◌, ◌-◌, ◌*◌, ◌/◌, ◌%◌, ◌^◌, ◌≤◌, ◌<◌, ◌≡◌, refl, ap, Bool, true, false, inl, inr,
  Bool-cases, ◌∙◌, ◌&&◌, ◌||◌, not, xor, arith, ltb, leb, ◌==◌, ltb→lt, if◌then◌else◌, ok, err,
  undefined,
}
use pp_d_scache.Master.{int_mask, range_mask, bitset_of, range_set_slots, PpMaster}
use pp_d_scache.Base.Int.{ℤ, pos, int_eq}

-- Over a small range, check every value by evaluation.
all_below : ℕ → (ℕ → Bool) → Bool
all_below zero test = true
all_below (suc n) test = if test n then all_below n test else false

passes : (n x : ℕ) (test : ℕ → Bool) → x < n → all_below n test ≡ true → test x ≡ true
unfolding all_below
passes (suc n) x test lt all = ground (arith, passes n x test)
passes zero x test lt all = absurd (omega arith)

-- A test at `start`, `count` and `i`: the mask that is expected, and its bits.
abbrev mask_at : ℕ → ℕ → ℕ
mask_at start count = (2 ^ count - 1) * 2 ^ start

abbrev bit_right : ℕ → ℕ → ℕ → Bool
bit_right start count i =
    not (xor (mask_at start count / 2 ^ i % 2 == 1) (leb start i && ltb i (start + count)))

bits_table :
    all_below 32 (λ start. all_below (32 - start) (λ count. all_below 64 (bit_right start count)))
    ≡ true
unfolding all_below
bits_table = refl

-- The size of a mask goes by the end of the range.
abbrev size_right : ℕ → ℕ → Bool
size_right start count =
    if leb (start + count) 31
    then ltb (mask_at start count) (2 ^ 31)
    else if start + count == 32
    then not (ltb (mask_at start count) (2 ^ 31)) && ltb (mask_at start count) (2 ^ 32)
    else not (ltb (mask_at start count) (2 ^ 32))

sizes_table : all_below 32 (λ start. all_below 31 (size_right start)) ≡ true
unfolding all_below
sizes_table = refl

abbrev sign_right : ℕ → ℕ → Bool
sign_right start i =
    not (xor ((mask_at start (32 - start) + (2 ^ 64 - 2 ^ 32)) / 2 ^ i % 2 == 1) (leb start i))

signs_table : all_below 32 (λ start. all_below 64 (sign_right start)) ≡ true
unfolding all_below
signs_table = refl

size_lem : (start count : ℕ) → start < 32 → count < 31 → size_right start count ≡ true
size_lem start count h k =
    passes 31 count (size_right start) k
      (passes 32 start (λ (s : ℕ). all_below 31 (size_right s)) h sizes_table)

eq_of_not-xor : (a b : Bool) → not (xor a b) ≡ true → a ≡ b
eq_of_not-xor true true h = refl
eq_of_not-xor true false h = cc
eq_of_not-xor false true h = cc
eq_of_not-xor false false h = refl

-- The bits of a mask that ends by 31.
bits_lem :
    (start count i : ℕ)
    → start + count < 32
    → bitset_of (mask_at start count) i ≡ (leb start i && ltb i (start + count))
unfolding bitset_of
bits_lem start count i h = elim (Bool-cases (ltb i 64)) [
  | inl low ↦ rw low (
      eq_of_not-xor _ _ (
        passes 64 i (bit_right start count) (ltb→lt i 64 low) (
          passes (32 - start) count (λ (c : ℕ). all_below 64 (bit_right start c)) (omega arith)
            (passes 32 start
              (λ (s : ℕ). all_below (32 - s) (λ count. all_below 64 (bit_right s count)))
              (omega arith) bits_table))))
  | inr high ↦ ground arith
]

signs_lem :
    (start i : ℕ)
    → start < 32
    → bitset_of (mask_at start (32 - start) + (2 ^ 64 - 2 ^ 32)) i ≡ (leb start i && ltb i 64)
unfolding bitset_of
signs_lem start i h = elim (Bool-cases (ltb i 64)) [
  | inl low ↦ rw low (
      eq_of_not-xor _ (leb start i) (
        passes 64 i (sign_right start) (ltb→lt i 64 low)
          (passes 32 start (λ (s : ℕ). all_below 64 (sign_right s)) h signs_table))
      ∙ ground arith)
  | inr high ↦ ground arith
]

int_mask_lem :
    (start count : ℕ)
    → start < 32
    → count < 31
    → int_mask start count ≡ (
        if leb (start + count) 31
        then ok (mask_at start count)
        else if start + count == 32
        then ok (mask_at start count + (2 ^ 64 - 2 ^ 32))
        else err undefined)
unfolding int_mask
int_mask_lem start count h k = ground (arith, size_lem start count h k)

int_mask_large :
    (start count : ℕ)
    → (ltb start 32 && ltb count 31) ≡ false
    → int_mask start count ≡ err undefined
unfolding int_mask
int_mask_large start count h = ground arith

int_mask_beyond : (start count : ℕ) → 32 < start + count → int_mask start count ≡ err undefined
int_mask_beyond start count h = elim (Bool-cases (ltb start 32 && ltb count 31)) [
  | inl small ↦ int_mask_lem start count (ground arith) (ground arith) ∙ ground arith
  | inr large ↦ int_mask_large start count large
]

module _ {Address : Type 0} (server_id : ℤ) (start end : ℕ) (m : PpMaster Address)
    (order : start ≤ end) where
  -- The master after `[low, high)` was added to the server's slots.
  abbrev pub with_range : ℕ → ℕ → PpMaster Address
  with_range low high = record m {
    id_to_slots = λ id.
        if int_eq id server_id
        then (λ i. m.id_to_slots id i || (leb low i && ltb i high))
        else m.id_to_slots id;
  }

  -- A mask that has the bits of a range gives the master with the range.
  with_mask :
      (mask low high : ℕ)
      → range_mask (pos start) (pos end) ≡ ok mask
      → ((i : ℕ) → bitset_of mask i ≡ (leb low i && ltb i high))
      → range_set_slots server_id (pos start) (pos end) m ≡ ok (with_range low high)
  unfolding range_set_slots
  with_mask mask low high e bits = rw e (λ j. ok (record m {
    id_to_slots = λ id.
        if int_eq id server_id then (λ i. m.id_to_slots id i || bits i j) else m.id_to_slots id;
  }))

  range_mask_lem : range_mask (pos start) (pos end) ≡ int_mask start (end - start)
  unfolding range_mask
  range_mask_lem = ground arith

  -- A range of at most 30 slots that ends by 31 is added to the server's slots, and nothing else is.
  range_set_slots-within :
      end ≤ 31
      → end - start < 31
      → range_set_slots server_id (pos start) (pos end) m ≡ ok (with_range start end)
  range_set_slots-within h k =
      with_mask (mask_at start (end - start)) start end
        (range_mask_lem ∙ int_mask_lem start (end - start) (omega arith) k ∙ ground arith)
        (λ i.
          bits_lem start (end - start) i (omega arith)
          ∙ ap (λ (j : ℕ). leb start i && ltb i j) (omega arith))

  -- A range that ends at 32 adds the slots up to 63 too.
  pub range_set_slots-sign :
      end ≡ 32
      → 2 ≤ start
      → start < 32
      → range_set_slots server_id (pos start) (pos end) m ≡ ok (with_range start 64)
  range_set_slots-sign h k l =
      let e : end - start ≡ 32 - start = omega arith in
      with_mask (mask_at start (32 - start) + (2 ^ 64 - 2 ^ 32)) start 64
        (range_mask_lem
          ∙ ap (int_mask start) e
          ∙ int_mask_lem start (32 - start) l (omega arith)
          ∙ ground arith)
        (λ i. signs_lem start i l)

  -- A range that ends beyond 32 is undefined, so no slot from 64 on can be given to a server.
  range_set_slots-beyond :
      32 < end → range_set_slots server_id (pos start) (pos end) m ≡ err undefined
  unfolding range_set_slots
  range_set_slots-beyond h = rw (range_mask_lem ∙ int_mask_beyond start (end - start) (omega arith))
