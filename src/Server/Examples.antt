-- ===== src/Server/Examples.antt =====
-- The theorems on requests at a server 3 that serves the stores 3 and 4.
use pp_d_scache.Base.{◌≡◌, refl, [], ◌∷◌, take, ltb, arith, ok, err, undefined, some, none, ◌⊎◌}
use pp_d_scache.Base.Int.{pos}
use pp_d_scache.Base.Text.{Str, codes}
use pp_d_scache.Cache.Db.{Db, Bitset, add_entry}
use pp_d_scache.Cache.Db.Invariant.{IsLinked, added-IsLinked}
use pp_d_scache.Cache.Db.Refine.{view, value_at}
use pp_d_scache.Cache.Db.Spec
use pp_d_scache.Base.Text.{Str-discrete}
use pp_d_scache.Server.{DbServer, handle_client_request, is_right_id, db_default}
use pp_d_scache.Server.Message.{message}
use pp_d_scache.Server.Requests.{
  Served, get_reply, handle_client_request-get, handle_client_request-set_moved,
  handle_client_request-set,
}

abbrev low_slots : Bitset
low_slots i = ltb i 100

abbrev no_keys : Db Str Str
no_keys = record db_default { slots = low_slots; max_size = pos 10 }

no_keys-IsLinked : IsLinked no_keys
no_keys-IsLinked = record {
  falling = tt;
  owned = tt;
  lru_good = λ k e h. cc;
  slot_good = λ k e h. cc;
  slot_owned = λ i k h. cc;
  slot_falling = λ i k h. absurd cc;
}

abbrev key : Str
key = codes "someword"

abbrev value : Str
value = codes "its value"

-- The store with the key.
abbrev store : Db Str Str
store = add_entry Str-discrete key key (codes "old") (pos 17) no_keys

store-IsLinked : IsLinked store
store-IsLinked =
    added-IsLinked Str-discrete key (codes "old") (pos 17) no_keys no_keys-IsLinked refl

abbrev server : DbServer
server = record { server_id = pos 3; ids = pos 3 ∷ pos 4 ∷ []; id_to_db = λ i. store }

-- A server whose stores were made by `operator[]` and then given slots.
abbrev new_server : DbServer
new_server = record server { id_to_db = λ i. record db_default { slots = low_slots } }

-- A read that finds the key.
handle_client_request-get_example :
    let r = Spec.get Str-discrete key (view store) in
    (s' : DbServer) × (handle_client_request ok (message 4 17 (codes "GET") key value) server
      ≡ ok (get_reply r.0, s'))
    × Served (pos 4) server s' r.1
    × ((s'.id_to_db (pos 4)).slot_to_key ≡ store.slot_to_key)
unfolding is_right_id add_entry
handle_client_request-get_example =
    handle_client_request-get ok 4 17 key value server (omega arith) (omega arith) refl refl refl
      store-IsLinked

read_hits : (Spec.get Str-discrete key (view store)).0 ≡ some (codes "old")
unfolding add_entry
read_hits = rw (Spec.get-present Str-discrete key (view store) (codes "old") (ground arith)) refl

-- The server's own store 3 refuses a write for slot 17.
handle_client_request-set_moved_example :
    handle_client_request ok (message 3 17 (codes "SET") key value) server
    ≡ ok (codes "Moved", server)
unfolding is_right_id add_entry
handle_client_request-set_moved_example =
    handle_client_request-set_moved ok 3 17 key value server (omega arith) (omega arith) refl refl
      refl (λ e. cc)

-- A write of the key that the server's own store has.
handle_client_request-set_example :
    ((old : Str) × (value_at store.map key ≡ some old)
      × ((s' : DbServer) × (handle_client_request
              (λ _. err undefined)
              (message 4 3 (codes "SET") key value)
              server
            ≡ ok (codes "SETDONE", s'))
          × Served (pos 3) server s' (Spec.use_key Str-discrete key (take 8 value) (view store))
          × ((s'.id_to_db (pos 3)).slot_to_key ≡ store.slot_to_key)))
    ⊎ ((store.map key ≡ none)
        × (handle_client_request (λ _. err undefined) (message 4 3 (codes "SET") key value) server
            ≡ err undefined))
unfolding is_right_id add_entry
handle_client_request-set_example =
    handle_client_request-set (λ _. err undefined) 4 3 key value server (omega arith) (omega arith)
      refl refl refl refl store-IsLinked refl
