-- ===== src/Master/Reset.antt =====
-- master/PpMaster.cc: `PpMaster::resetSlots`, with the operators of `uint64_t` and `std::bitset` that it
-- uses.
use pp_d_scache.Base.{
  ℕ, zero, suc, ◌+◌, ◌-◌, ◌*◌, ◌/◌, ◌%◌, ◌^◌, Bool, true, false, ◌||◌, ◌&&◌, List, [], ◌∷◌, ltb,
  leb, ◌==◌, if◌then◌else◌, Result, ok, err, ◌>>=◌, undefined, out_of_range, overflow_error, ◌≡◌,
  refl, sym, fun_ext, ap, arith, Bool-cases, inl, inr,
}
use pp_d_scache.Base.Int.{ℤ, pos, negsuc, int_eq, int_eq_iff}
use pp_d_scache.Cache.Db.{Bitset, slots_max}
use pp_d_scache.Master.{PpMaster, bitset_of}
use Prim.Native.Nat.{bit_and}

abbrev pub block_size : ℕ
block_size = 64

abbrev pub num_blocks : ℕ
num_blocks = slots_max / block_size

-- A shift of a `uint64_t` by its width or more is undefined.
unfoldable pub shift_left : ℕ → ℕ → Result ℕ
shift_left x k = if leb 64 k then err undefined else ok (x * 2 ^ k % 2 ^ 64)

unfoldable pub shift_right : ℕ → ℕ → Result ℕ
shift_right x k = if leb 64 k then err undefined else ok (x / 2 ^ k)

-- `~x`
unfoldable pub complement : ℕ → ℕ
complement x = 2 ^ 64 - 1 - x

-- Whether one of the bits from `i` on is set, of which there are `k`.
unfoldable pub any_set : ℕ → ℕ → Bitset → Bool
any_set zero i bits = false
any_set (suc k) i bits = bits i || any_set k (suc i) bits

-- The number of the `k` bits from `i` on.
unfoldable pub number : ℕ → ℕ → Bitset → ℕ
number zero i bits = 0
number (suc k) i bits = (if bits i then 1 else 0) + 2 * number k (suc i) bits

-- `std::bitset::to_ullong` throws where the number does not fit.
unfoldable pub to_ullong : Bitset → Result ℕ
to_ullong bits =
    if any_set (slots_max - 64) 64 bits then err overflow_error else ok (number 64 0 bits)

-- `__builtin_ctzll` of a number below 2 ^ `k`.
unfoldable pub trailing_zeros : ℕ → ℕ → ℕ
trailing_zeros zero x = 0
trailing_zeros (suc k) x = let rest = trailing_zeros k (x / 2) in if x % 2 == 1 then 0 else suc rest

-- The positions of the block `i` until `n` are counted, of which at most `left` fit, and the count.
unfoldable pub take_positions : ℕ → ℕ → ℕ → ℕ → ℕ → List ℕ × ℕ
take_positions zero i n block count = ([], count)
take_positions (suc left) i n block count =
    let position = i * block_size + trailing_zeros 64 block in
    let (rest, counted) = take_positions left i n (bit_and block (block - 1)) (suc count) in
    if block == 0
    then ([], count)
    else if suc count == n
    then (position ∷ [], suc count)
    else (position ∷ rest, counted)

-- `ret.set(pos)` and `masks[i] &= ~(1ULL << pos)` of each position.
unfoldable pub mark : List ℕ → Bitset → ℕ → Result (Bitset × ℕ)
mark [] ret mask = ok (ret, mask)
mark (p ∷ ps) ret mask = do
  marked ← (if ltb p slots_max then ok (λ i. i == p || ret i) else err out_of_range)
  bit ← shift_left 1 p
  mark ps marked (bit_and mask (complement bit))

-- The blocks from `i` on, of which there are `left`.
unfoldable pub reset_blocks : ℕ → ℕ → ℕ → ℕ → Bitset → Bitset → Result (Bitset × Bitset)
reset_blocks zero i n count ret bits = ok (ret, bits)
reset_blocks (suc left) i n count ret bits =
    if ltb count n
    then (to_ullong bits >>= λ whole. shift_right whole (i * block_size) >>= λ block.
        shift_left 1 block_size >>= λ power.
        let taken = take_positions block_size i n block count in
        mark taken.0 ret ((power + 2 ^ 64 - 1) % 2 ^ 64) >>= λ marked.
        shift_left marked.1 (i * block_size) >>= λ shifted.
        reset_blocks left (suc i) n taken.1 marked.0
          (λ j. bits j && bitset_of (complement shifted) j))
    else ok (ret, bits)

-- The slots that were reset, and the master.
unfoldable pub reset_slots :
    {Address : Type 0} → ℤ → ℤ → PpMaster Address → Result (Bitset × PpMaster Address)
reset_slots server_id (negsuc n) m = ok ((λ i. false), m)
reset_slots server_id (pos n) m = do
  (ret, bits) ← reset_blocks num_blocks 0 n 0 (λ i. false) (m.id_to_slots server_id)
  ok (ret, record m { id_to_slots = λ id. if int_eq id server_id then bits else m.id_to_slots id })

abbrev pub positive : ℤ → Bool
positive (negsuc n) = false
positive (pos n) = ltb 0 n

-- The slots of a server that no `unsigned long long` holds.
abbrev pub has_high_slot : Bitset → Bool
has_high_slot bits = any_set (slots_max - 64) 64 bits

reset_blocks-err :
    (left n : ℕ) (ret bits : Bitset)
    → ltb 0 n ≡ true
    → reset_blocks (suc left) 0 n 0 ret bits
      ≡ err (if has_high_slot bits then overflow_error else undefined)
unfolding reset_blocks to_ullong shift_right shift_left
reset_blocks-err left n ret bits h = ground (arith, h)

reset_blocks-zero : (ret bits : Bitset) → reset_blocks num_blocks 0 0 0 ret bits ≡ ok (ret, bits)
unfolding reset_blocks
reset_blocks-zero ret bits = refl

unchanged : {A : Type 0} (id : ℤ) (f : ℤ → A) (j : ℤ) → (if int_eq j id then f id else f j) ≡ f j
unchanged id f j = elim (Bool-cases (int_eq j id)) [
  | inl w ↦ rw w (ap f (sym ((int_eq_iff j id).0 w)))
  | inr w ↦ rw w refl
]

-- A call that is to reset any slots resets none: it throws when the server has a slot from 64 on, and
-- otherwise shifts by the width of `unsigned long long`. A call for no slots changes nothing.
pub reset_slots_lem :
    {Address : Type 0} (server_id n : ℤ) (m : PpMaster Address)
    → reset_slots server_id n m ≡ (
        if positive n
        then err (if has_high_slot (m.id_to_slots server_id) then overflow_error else undefined)
        else ok ((λ i. false), m))
unfolding reset_slots
reset_slots_lem server_id (negsuc n) m = refl
reset_slots_lem server_id (pos zero) m =
    rw
      (
        reset_blocks-zero (λ i. false) (m.id_to_slots server_id),
        fun_ext (unchanged server_id m.id_to_slots),
      )
      refl
reset_slots_lem server_id (pos (suc n)) m =
    let h : ltb 0 (suc n) ≡ true = ground arith in
    rw (reset_blocks-err 255 (suc n) (λ i. false) (m.id_to_slots server_id) h, h) refl
