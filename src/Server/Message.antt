-- ===== src/Server/Message.antt =====
-- The request format that `handle_client_request` of server/DbServer.cc documents and cuts up: a
-- server id of two characters, a slot of five, a command of three, a key of eight, and a value.
use mathlib.Core.List.{append_assoc}
use pp_d_scache.Base.{
  ℕ, ◌<◌, ◌≡◌, refl, ap, sym, ◌∙◌, [], ◌++◌, length, take, if◌then◌else◌, length-append, arith,
  Result, ok,
}
use pp_d_scache.Base.Int.{pos}
use pp_d_scache.Base.Text.{
  Str, codes, digits_2, digits_5, substr, substr-append, substr-field, stoi-digits_2, stoi-digits_5,
}
use pp_d_scache.Server.{DbServer, handle_client_request, serve, serve_listed, is_right_id}

abbrev pub message : ℕ → ℕ → Str → Str → Str → Str
message id slot cmd key value = digits_2 id ++ (digits_5 slot ++ (cmd ++ (key ++ value)))

module _ (id slot : ℕ) (cmd key value : Str) (three : length cmd ≡ 3) (eight : length key ≡ 8) where
  abbrev whole : Str
  whole = message id slot cmd key value

  cut_id : substr 0 2 whole ≡ ok (digits_2 id)
  cut_id = substr-field 0 2 [] (digits_2 id) _ refl refl

  cut_slot : substr 2 5 whole ≡ ok (digits_5 slot)
  cut_slot = substr-field 2 5 (digits_2 id) (digits_5 slot) _ refl refl

  cut_cmd : substr 7 3 whole ≡ ok cmd
  cut_cmd = substr-field 7 3 (digits_2 id ++ digits_5 slot) cmd (key ++ value) refl three

  cut_key : substr 10 8 whole ≡ ok key
  cut_key =
      substr-field 10 8 (digits_2 id ++ (digits_5 slot ++ cmd)) key value (omega (arith, three))
        eight

  pub cut_value : substr 18 8 whole ≡ ok (take 8 value)
  cut_value =
      ap (λ s. substr 18 8 (digits_2 id ++ (digits_5 slot ++ s))) (sym (append_assoc cmd key value))
      ∙ substr-append 18 8 (digits_2 id ++ (digits_5 slot ++ (cmd ++ key))) value
          (omega (arith, length-append cmd key, three, eight))

  -- A request in the format is cut into its fields: a listed id is served with the slot, the command
  -- and the key of the request, and any other id is refused.
  pub handle_client_request-message :
      (deref_end : Str → Result Str) (s : DbServer)
      → id < 100
      → slot < 100000
      → handle_client_request deref_end whole s ≡ (
          if is_right_id (pos id) s
          then serve deref_end (pos id) (pos slot) cmd key whole s
          else ok (codes "WrongServerId", s))
  unfolding handle_client_request serve_listed
  handle_client_request-message deref_end s h k =
      rw (cut_id, stoi-digits_2 id h, cut_slot, cut_cmd, cut_key, stoi-digits_5 slot k)
