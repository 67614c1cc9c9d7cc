-- ===== src/Server/Requests.antt =====
-- What a server answers to a request in the documented format, and what it does to its stores.
use pp_d_scache.Base.{
  ℕ, ◌<◌, ◌≡◌, ◌≢◌, refl, ◌∙◌, ◌⊎◌, inl, inr, Option-cases, true, false, Option, none, some, length,
  take, arith, if◌then◌else◌, Result, ok, err, undefined,
}
use pp_d_scache.Base.Int.{ℤ, pos, int_eq_iff}
use pp_d_scache.Base.Text.{Str, codes, str_eq, Str-discrete}
use pp_d_scache.Cache.Db.Insert.{set_kv-present, set_kv_absent}
use pp_d_scache.Cache.Db.{Db, Bitset, add_slots, slots_max, get_kv, set_kv, make_room, test_slot}
use pp_d_scache.Cache.Db.Invariant.{IsLinked}
use pp_d_scache.Cache.Db.Refine.{view, value_at, Becomes, get_kv-Spec, del_kv-Spec}
use pp_d_scache.Cache.Db.Spec.{View}
use pp_d_scache.Cache.Db.Spec
use pp_d_scache.Cache.Nodes.{back}
use pp_d_scache.Server.{
  DbServer, Reply, handle_client_request, serve, handle_get, handle_del, handle_set, is_right_id,
  is_right_slot, is_this_server, update_db, db_default,
}
use pp_d_scache.Server.Message.{message, cut_value, handle_client_request-message}

abbrev pub get_reply : Option Str → Str
get_reply none = codes "GETKeyNotFound"
get_reply (some value) = value

-- The server `s'` that a request on the store `id` leaves: that store has the view `w`, and all else
-- is as it was.
pub record Served (id : ℤ) (s s' : DbServer) (w : View Str Str) : Type 0 where
  pub served : Becomes (s.id_to_db id) (s'.id_to_db id) w
  pub others : (i : ℤ) → i ≢ id → s'.id_to_db i ≡ s.id_to_db i
  pub same_id : s'.server_id ≡ s.server_id
  pub same_ids : s'.ids ≡ s.ids

update_db-Served :
    (id : ℤ) (s : DbServer) (d : Db Str Str) (w : View Str Str)
    → Becomes (s.id_to_db id) d w
    → Served id s (update_db id d s) w
unfolding update_db
update_db-Served id s d w b = record {
  served = rw ((int_eq_iff id id).1 refl) b;
  others = λ i h. ground (arith, int_eq_iff i id);
  same_id = refl;
  same_ids = refl;
}

handle_get_lem :
    (id : ℤ) (key : Str) (s : DbServer) (d : Db Str Str) (found : Option Str)
    → get_kv Str-discrete key (s.id_to_db id) ≡ ok (found, d)
    → handle_get id key s ≡ ok (get_reply found, update_db id d s)
unfolding handle_get
handle_get_lem id key s d none e = rw (e, handle_get)
handle_get_lem id key s d (some v) e = rw (e, handle_get)

module _ (deref_end : Str → Result Str) (id slot : ℕ) (key value : Str) (s : DbServer)
    (h : id < 100) (k : slot < slots_max) (eight : length key ≡ 8)
    (listed : is_right_id (pos id) s ≡ true) where
  right_slot :
      (s.id_to_db (pos id)).slots slot ≡ true → is_right_slot (pos id) (pos slot) s ≡ ok true
  unfolding is_right_slot test_slot
  right_slot e = ground arith

  wrong_slot :
      (s.id_to_db (pos id)).slots slot ≡ false → is_right_slot (pos id) (pos slot) s ≡ ok false
  unfolding is_right_slot test_slot
  wrong_slot e = ground arith

  abbrev handle : Str → Result Reply
  handle cmd = handle_client_request deref_end (message id slot cmd key value) s

  handle-serve :
      (cmd : Str)
      → length cmd ≡ 3
      → handle cmd ≡ serve deref_end (pos id) (pos slot) cmd key (message id slot cmd key value) s
  handle-serve cmd three =
      handle_client_request-message id slot cmd key value three eight deref_end s h (omega arith)
      ∙ rw listed

  -- A read in the documented format, of a listed and linked store with the slot, answers with what
  -- the store's specification reads. It moves the key to the front of that store's order if it is there,
  -- and changes nothing else: neither the store's other fields, its multimap of slots included, nor
  -- the other stores.
  pub handle_client_request-get :
      (s.id_to_db (pos id)).slots slot ≡ true
      → IsLinked (s.id_to_db (pos id))
      → let r = Spec.get Str-discrete key (view (s.id_to_db (pos id))) in
        (s' : DbServer) × (handle (codes "GET") ≡ ok (get_reply r.0, s'))
        × Served (pos id) s s' r.1
        × ((s'.id_to_db (pos id)).slot_to_key ≡ (s.id_to_db (pos id)).slot_to_key)
  unfolding serve update_db
  handle_client_request-get e v =
      let (d, f, b, kept) = get_kv-Spec Str-discrete key (s.id_to_db (pos id)) v in
      (
        update_db (pos id) d s,
        handle-serve (codes "GET") refl ∙ rw (right_slot e) (handle_get_lem (pos id) key s d _ f),
        update_db-Served (pos id) s d _ b,
        rw ((int_eq_iff (pos id) (pos id)).1 refl) kept,
      )

  -- A deletion in the documented format, on a listed and linked store with the slot, does what the
  -- store's specification does, answers so, and leaves the other stores as they were.
  pub handle_client_request-del :
      (s.id_to_db (pos id)).slots slot ≡ true
      → IsLinked (s.id_to_db (pos id))
      → let r = Spec.del Str-discrete key (view (s.id_to_db (pos id))) in
        (s' : DbServer) × (handle (codes "DEL")
          ≡ ok (if r.0 then codes "DELDown" else codes "DELKeyNotFound", s'))
        × Served (pos id) s s' r.1
  unfolding serve handle_del
  handle_client_request-del e v =
      let (d, f, b, kept) = del_kv-Spec Str-discrete key (s.id_to_db (pos id)) v in
      (
        update_db (pos id) d s,
        handle-serve (codes "DEL") refl ∙ rw (right_slot e) (rw (f, handle_del)),
        update_db-Served (pos id) s d _ b,
      )

  -- A write to a listed store with the slot is refused with `Moved`, and changes nothing, whenever the
  -- slot's number is not the server's own id, also where the store is the server's own.
  pub handle_client_request-set_moved :
      (s.id_to_db (pos id)).slots slot ≡ true
      → pos slot ≢ s.server_id
      → handle (codes "SET") ≡ ok (codes "Moved", s)
  unfolding serve handle_set is_this_server
  handle_client_request-set_moved e other =
      handle-serve (codes "SET") refl
      ∙ rw (right_slot e) (ground (arith, int_eq_iff (pos slot) s.server_id))

  -- A request for a slot that the store does not have is refused, whatever its command, and a command
  -- that is none of the three, for a slot that it has, is undefined.
  handle_client_request-other :
      (cmd : Str)
      → length cmd ≡ 3
      → ((s.id_to_db (pos id)).slots slot ≡ false → handle cmd ≡ ok (codes "WrongSlot", s))
        × ((s.id_to_db (pos id)).slots slot ≡ true
            → str_eq cmd (codes "GET") ≡ false
            → str_eq cmd (codes "DEL") ≡ false
            → str_eq cmd (codes "SET") ≡ false
            → handle cmd ≡ err undefined)
  unfolding serve
  handle_client_request-other cmd three = (
    λ e. handle-serve cmd three ∙ rw (wrong_slot e),
    λ e a b c. handle-serve cmd three ∙ rw (right_slot e, a, b, c),
  )

  -- A write in the documented format, to a listed store with the slot, whose number is the server's own
  -- id, where the server's own store is linked and `mapItor->first` of `map_.end()` is undefined, as
  -- the standard says: if the own store has the key, the answer is `SETDONE`, and the first eight bytes
  -- of the value are stored there for the key, which moves to the front of the order, and nothing else
  -- is changed, the multimap of slots included; if not, the request is undefined.
  pub handle_client_request-set :
      let own = s.id_to_db s.server_id in
      (s.id_to_db (pos id)).slots slot ≡ true
      → pos slot ≡ s.server_id
      → IsLinked own
      → deref_end key ≡ err undefined
      → ((old : Str) × (value_at own.map key ≡ some old)
          × ((s' : DbServer) × (handle (codes "SET") ≡ ok (codes "SETDONE", s'))
              × Served s.server_id s s' (Spec.use_key Str-discrete key (take 8 value) (view own))
              × ((s'.id_to_db s.server_id).slot_to_key ≡ own.slot_to_key)))
        ⊎ ((own.map key ≡ none) × (handle (codes "SET") ≡ err undefined))
  unfolding serve handle_set is_this_server update_db
  handle_client_request-set e same v first =
      let own = s.id_to_db s.server_id in
      let cut = cut_value id slot (codes "SET") key value refl eight in
      let mine = (int_eq_iff (pos slot) s.server_id).1 same in
      elim (Option-cases (own.map key)) [
        | inl missing ↦ inr (
          missing,
          handle-serve (codes "SET") refl
              ∙ rw
                  (
                    right_slot e,
                    mine,
                    cut,
                    first,
                    set_kv_absent Str-discrete key (take 8 value) (pos slot) own missing,
                  )
                  refl,
        )
        | inr (entry, found) ↦
            let (d, f, b, kept) =
              set_kv-present Str-discrete (err undefined) key (take 8 value) (pos slot) entry own v
                found in
            inl (
              entry.value,
              rw (value_at, found) refl,
              (
                update_db s.server_id d s,
                handle-serve (codes "SET") refl ∙ rw (right_slot e, mine, cut, first, f) refl,
                update_db-Served s.server_id s d _ b,
                rw ((int_eq_iff s.server_id s.server_id).1 refl) kept,
              ),
            )
      ]

  -- On the store that `operator[]` makes, which has the limit 0 and which nothing gives another, such
  -- a write is undefined, whatever slots the store has and whatever `mapItor->first` gives.
  handle_client_request-set_default :
      (b : Bitset)
      → (s.id_to_db (pos id)).slots slot ≡ true
      → pos slot ≡ s.server_id
      → s.id_to_db s.server_id ≡ add_slots b db_default
      → handle (codes "SET") ≡ err undefined
  unfolding serve handle_set is_this_server set_kv make_room add_slots back
  handle_client_request-set_default b e same made =
      handle-serve (codes "SET") refl
      ∙ rw (
        right_slot e,
        handle_set,
        is_this_server,
        (int_eq_iff (pos slot) s.server_id).1 same,
        cut_value id slot (codes "SET") key value refl eight,
        made,
      )
