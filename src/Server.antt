-- ===== src/Server.antt =====
-- server/DbServer.h and server/DbServer.cc: `DbServer`, one request at a time. The mutex `dbmtx_`
-- guards the whole part after the test of the id, so requests are served one after another.

pub mod Message
pub mod Requests
mod Examples
use pp_d_scache.Base.{
  Bool, false, not, ◌||◌, none, some, List, [], ◌∷◌, if◌then◌else◌, Result, ok, err, ◌>>=◌,
  undefined,
}
use pp_d_scache.Base.Int.{ℤ, pos, int_eq}
use pp_d_scache.Base.Table
use pp_d_scache.Base.Text.{Str, codes, str_eq, Str-discrete, substr, stoi}
use pp_d_scache.Cache.Db.{Db, get_kv, del_kv, set_kv, test_slot}

-- What `operator[]` of `map<int, Db>` makes for a missing key: all members zero or empty.
abbrev pub db_default : Db Str Str
db_default = record {
  slots_num = pos 0;
  scale_up = false;
  slots = λ _. false;
  max_size = pos 0;
  lru_list = [];
  map = Table.empty;
  slot_to_key = Table.empty;
  fresh = 0;
}

-- The fields of `DbServer`. `id_to_db` is read and written through `operator[]` alone, so a missing
-- key is the same as a default `Db`.
pub record DbServer : Type 0 where
  pub server_id : ℤ
  pub ids : List ℤ
  pub id_to_db : ℤ → Db Str Str

unfoldable pub update_db : ℤ → Db Str Str → DbServer → DbServer
update_db id d s = record s { id_to_db = λ i. if int_eq i id then d else s.id_to_db i }

-- The loop of `isRightId` over `ids_`.
unfoldable pub is_listed : ℤ → List ℤ → Bool
is_listed id [] = false
is_listed id (i ∷ ids) = int_eq id i || is_listed id ids

unfoldable pub is_right_id : ℤ → DbServer → Bool
unfolding is_listed
is_right_id id s = is_listed id s.ids

unfoldable pub is_right_slot : ℤ → ℤ → DbServer → Result Bool
is_right_slot id slot s = test_slot slot (s.id_to_db id)

unfoldable pub is_this_server : ℤ → DbServer → Bool
is_this_server id s = int_eq id s.server_id

-- A reply and the server after it.
abbrev pub Reply : Type 0
Reply = Str × DbServer

-- The branch `cmd == "GET"`.
unfoldable pub handle_get : ℤ → Str → DbServer → Result Reply
handle_get id key s = do
  (found, d) ← get_kv Str-discrete key (s.id_to_db id)
  elim found [
    | some value ↦ ok (value, update_db id d s)
    | none ↦ ok (codes "GETKeyNotFound", update_db id d s)
  ]

-- The branch `cmd == "DEL"`.
unfoldable pub handle_del : ℤ → Str → DbServer → Result Reply
handle_del id key s = do
  (found, d) ← del_kv Str-discrete key (s.id_to_db id)
  ok (if found then codes "DELDown" else codes "DELKeyNotFound", update_db id d s)

-- The branch `cmd == "SET"`: the test is on the slot, and the write goes to the `Db` of `serverId_`.
unfoldable pub handle_set : (Str → Result Str) → ℤ → Str → Str → DbServer → Result Reply
handle_set deref_end slot key mes s =
    if is_this_server slot s
    then (do
      value ← substr 18 8 mes
      d ← set_kv Str-discrete (deref_end key) key value slot (s.id_to_db s.server_id)
      ok (codes "SETDONE", update_db s.server_id d s))
    else ok (codes "Moved", s)

-- The part under the lock. A command that is none of the three reaches the end of a function that
-- has to return a string.
unfoldable pub serve : (Str → Result Str) → ℤ → ℤ → Str → Str → Str → DbServer → Result Reply
serve deref_end id slot cmd key mes s = do
  right ← is_right_slot id slot s
  if not right
      then ok (codes "WrongSlot", s)
      else if str_eq cmd (codes "GET")
      then handle_get id key s
      else if str_eq cmd (codes "DEL")
      then handle_del id key s
      else if str_eq cmd (codes "SET")
      then handle_set deref_end slot key mes s
      else err undefined

-- The part that reads the other fields and takes the lock.
unfoldable pub serve_listed : (Str → Result Str) → ℤ → Str → DbServer → Result Reply
serve_listed deref_end id mes s = do
  slot_str ← substr 2 5 mes
  cmd ← substr 7 3 mes
  key ← substr 10 8 mes
  slot ← stoi slot_str
  serve deref_end id slot cmd key mes s

-- `deref_end` is as in `Db`'s `set_kv`.
unfoldable pub handle_client_request : (Str → Result Str) → Str → DbServer → Result Reply
handle_client_request deref_end mes s = do
  id_str ← substr 0 2 mes
  id ← stoi id_str
  if is_right_id id s then serve_listed deref_end id mes s else ok (codes "WrongServerId", s)
