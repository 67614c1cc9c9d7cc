-- ===== src/Master.antt =====
-- The master: master/PpMaster.h, master/PpMaster.cc and master/RWLock.h.
pub mod RwLock
pub mod Slots
pub mod Reset
mod Examples
use pp_d_scache.Base.{
  ℕ, ◌+◌, ◌-◌, ◌*◌, ◌/◌, ◌%◌, ◌^◌, Bool, true, false, ◌||◌, List, [], ◌∷◌, get_elem?, ltb, leb,
  ◌==◌, if◌then◌else◌, Result, ok, err, ◌>>=◌, or_fault, undefined,
}
use pp_d_scache.Base.Int.{ℤ, pos, negsuc, int_eq, to_size}
use pp_d_scache.Base.Text.{Str, substr, stoi}
use pp_d_scache.Cache.Db.{Bitset}

-- The fields of `PpMaster`. The maps are read and written through `operator[]` alone, so a missing key
-- is the same as a default value; `Address` is `InetAddress`.
pub record PpMaster (Address : Type 0) : Type 0 where
  pub running : Bool
  pub db_num : ℤ
  pub now_db_num : ℤ
  pub id_to_addr : ℤ → Address
  pub ready_server : List Address
  pub id_to_slots : ℤ → Bitset
  pub slots_to_id : List ℤ

-- The answer is where the server of the slot listens; an index outside the vector is undefined.
unfoldable pub handle_client_request :
    {Address : Type 0} → (Address → Str) → Str → PpMaster Address → Result Str
handle_client_request to_ip_port mes m = do
  slot_str ← substr 0 5 mes
  slot ← stoi slot_str
  id ← or_fault (get_elem? m.slots_to_id (to_size slot)) undefined
  ok (to_ip_port (m.id_to_addr id))

-- `((1 << count) - 1) << start` on 32-bit `int`s, converted to `unsigned long long`. A shift by the
-- width or more, `1 << 31` minus one, and bits that leave the unsigned type are undefined; a result
-- with the sign bit is negative, and its conversion sets the upper 32 bits too.
unfoldable pub int_mask : ℕ → ℕ → Result ℕ
int_mask start count =
    if leb 31 count || leb 32 start
    then err undefined
    else let mask = (2 ^ count - 1) * 2 ^ start in
      if ltb mask (2 ^ 31)
      then ok mask
      else if ltb mask (2 ^ 32)
      then ok (mask + (2 ^ 64 - 2 ^ 32))
      else err undefined

-- A negative bound, or bounds in the wrong order, give a negative shift.
unfoldable pub range_mask : ℤ → ℤ → Result ℕ
range_mask (pos start) (pos end) =
    if leb start end then int_mask start (end - start) else err undefined
range_mask _ _ = err undefined

-- `bitset<SLOTS_NUM>` of an `unsigned long long`.
unfoldable pub bitset_of : ℕ → Bitset
bitset_of mask i = if ltb i 64 then mask / 2 ^ i % 2 == 1 else false

unfoldable pub range_set_slots :
    {Address : Type 0} → ℤ → ℤ → ℤ → PpMaster Address → Result (PpMaster Address)
range_set_slots server_id start end m = do
  mask ← range_mask start end
  ok (record m {
    id_to_slots = λ id.
        if int_eq id server_id
        then (λ i. m.id_to_slots id i || bitset_of mask i)
        else m.id_to_slots id;
  })
