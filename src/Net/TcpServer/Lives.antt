-- ===== src/Net/TcpServer/Lives.antt =====
-- Each connection of a server is in its table until it is removed, once.
use pp_d_scache.Base.{
  ℕ, suc, ◌^◌, ◌≡◌, ◌<◌, inl, inr, refl, ap, subst, sym, ◌∙◌, false, List, [], ◌∷◌, Option, none,
  some, ltb, ok, ℕ_discrete, arith, ◌==◌, Bool-cases, if_pos, if_neg, ◌≢◌, Option-cases,
  Result-cases,
}
use pp_d_scache.Base.Table
use pp_d_scache.Base.Text.{Str, Str-discrete}
use pp_d_scache.Net.LoopPool.{LoopPool, get_next_loop}
use pp_d_scache.Net.TcpServer.{
  Conn, established, destroyed, System, init, new_connection, remove_connection_in_loop, Event,
  accepts, closes, removes, happen, run,
}

-- A new server without connections.
abbrev pub fresh : {Loop : Type 0} → LoopPool Loop → System Loop
fresh pool = record { server = init pool; open_conns = Table.empty; removing = Table.empty }

module _ {Loop : Type 0} (conn_name : ℕ → Str)
    (apart : (i j : ℕ) → conn_name i ≡ conn_name j → i ≡ j) where
  -- A connection that is registered under its name, with a number that was given.
  abbrev pub IsRegistered : System Loop → ℕ → Conn Loop → Type 0
  IsRegistered s i c =
      (c.name ≡ conn_name i)
      × (i < s.server.next_conn_id)
      × (s.server.connections (conn_name i) ≡ some c)

  pub record IsKept (s : System Loop) : Type 0 where
    pub opened : (i : ℕ) (c : Conn Loop) → s.open_conns i ≡ some c → IsRegistered s i c
    pub leaving : (i : ℕ) (c : Conn Loop) → s.removing i ≡ some c → IsRegistered s i c
    pub either : (i : ℕ) (c : Conn Loop) → s.open_conns i ≡ some c → s.removing i ≡ none

  -- Different numbers are registered under different names.
  away-erase :
      (m : Str → Option (Conn Loop)) (i j : ℕ) (c : Option (Conn Loop))
      → (i == j) ≡ false
      → m (conn_name i) ≡ c
      → Table.erase Str-discrete (conn_name j) m (conn_name i) ≡ c
  away-erase m i j c h e =
      let n : conn_name i ≢ conn_name j =
        λ same. (let k = apart i j same in absurd (ground (arith, k))) in
      if_neg (Str-discrete (conn_name i) (conn_name j)) n none (m (conn_name i)) ∙ e

  away-insert :
      (m : Str → Option (Conn Loop)) (i j : ℕ) (d : Conn Loop) (c : Option (Conn Loop))
      → (i == j) ≡ false
      → m (conn_name i) ≡ c
      → Table.insert Str-discrete (conn_name j) d m (conn_name i) ≡ c
  away-insert m i j d c h e =
      let n : conn_name i ≢ conn_name j =
        λ same. (let k = apart i j same in absurd (ground (arith, k))) in
      if_neg (Str-discrete (conn_name i) (conn_name j)) n (some d) (m (conn_name i)) ∙ e

  removed : ℕ → Conn Loop → System Loop → System Loop
  removed id c s = record s {
    server = record s.server {
      connections = Table.erase Str-discrete c.name s.server.connections;
      tasks = destroyed c ∷ s.server.tasks;
    };
    removing = Table.erase ℕ_discrete id s.removing;
  }

  removed-IsKept :
      (id : ℕ) (c : Conn Loop) (s : System Loop)
      → IsKept s
      → s.removing id ≡ some c
      → IsKept (removed id c s)
  unfolding removed
  removed-IsKept id c s v e =
      let (n, l, f) = v.leaving id c e in
      record {
        opened = λ i d h.
            let (n', l', f') = v.opened i d h in
            let away : (i == id) ≡ false = elim (Bool-cases (i == id)) [
              | inl same ↦
                  let k : i ≡ id = ground arith in
                  let gone = v.either i d h in absurd (grind (arith, k, gone, e))
              | inr away ↦ away
            ] in
            (
              n',
              l',
              ap (λ (x : Str). Table.erase Str-discrete x s.server.connections (conn_name i)) n
                  ∙ away-erase s.server.connections i id (some d) away f',
            );
        leaving = λ i d h. elim (Bool-cases (i == id)) [
          | inl same ↦ absurd (ground (arith, h, same))
          | inr away ↦
              let (n', l', f') = v.leaving i d (ground (arith, h, away)) in
              (
                n',
                l',
                ap (λ (x : Str). Table.erase Str-discrete x s.server.connections (conn_name i)) n
                    ∙ away-erase s.server.connections i id (some d) away f',
              )
        ];
        either = λ i d h. elim (Bool-cases (i == id)) [
          | inl same ↦ ground (arith, same)
          | inr away ↦ ground (arith, away, v.either i d h)
        ];
      }

  removes-IsKept :
      (id : ℕ) (s : System Loop)
      → IsKept s
      → (r : System Loop) × (happen conn_name (removes id) s ≡ ok r) × IsKept r
  unfolding happen remove_connection_in_loop removed
  removes-IsKept id s v = elim (Option-cases (s.removing id)) [
    | inl e ↦ (s, rw (happen, e) refl, v)
    | inr (c, e) ↦
        let (n, l, f) = v.leaving id c e in
        let f' : s.server.connections c.name ≡ some c = ap s.server.connections n ∙ f in
        (removed id c s, rw (happen, e, f') refl, removed-IsKept id c s v e)
  ]

  -- A server with a new connection on a loop.
  accepted : ℕ → Loop → LoopPool Loop → System Loop → System Loop
  accepted fd loop pool s =
      let i = s.server.next_conn_id in
      let c : Conn Loop = record { id = i; name = conn_name i; loop = loop; sockfd = fd } in
      record s {
        server = record s.server {
          pool = pool;
          next_conn_id = suc i;
          connections = Table.insert Str-discrete (conn_name i) c s.server.connections;
          tasks = established c ∷ s.server.tasks;
        };
        open_conns = Table.insert ℕ_discrete i c s.open_conns;
      }

  accepted-IsKept :
      (fd : ℕ) (loop : Loop) (pool : LoopPool Loop) (s : System Loop)
      → IsKept s
      → IsKept (accepted fd loop pool s)
  unfolding accepted
  accepted-IsKept fd loop pool s v =
      let new = s.server.next_conn_id in
      let c : Conn Loop = record { id = new; name = conn_name new; loop = loop; sockfd = fd } in
      record {
        opened = λ i d h. elim (Bool-cases (i == new)) [
          | inl same ↦
              let k : i ≡ new = ground arith in
              let m : c ≡ d = ground (arith, h, same) in
              (
                sym (ap (λ (x : Conn Loop). x.name) m) ∙ ap conn_name (sym k),
                omega (arith, k),
                if_pos (Str-discrete (conn_name i) (conn_name new)) (ap conn_name k) (some c)
                      (s.server.connections (conn_name i))
                    ∙ ap some m,
              )
          | inr away ↦
              let (n, l, f) = v.opened i d (ground (arith, h, away)) in
              (n, omega (arith, l), away-insert s.server.connections i new c (some d) away f)
        ];
        leaving = λ i d h.
            let (n, l, f) = v.leaving i d h in
            let away : (i == new) ≡ false = ground (arith, l) in
            (n, omega (arith, l), away-insert s.server.connections i new c (some d) away f);
        either = λ i d h. elim (Bool-cases (i == new)) [
          | inl same ↦ elim (Option-cases (s.removing i)) [
            | inl gone ↦ gone
            | inr (x, e) ↦ let l = (v.leaving i x e).1 in absurd (ground (arith, l, same))
          ]
          | inr away ↦ v.either i d (ground (arith, h, away))
        ];
      }

  accepts-IsKept :
      (fd : ℕ) (s r : System Loop) → IsKept s → happen conn_name (accepts fd) s ≡ ok r → IsKept r
  unfolding happen new_connection accepted
  accepts-IsKept fd s r v h = elim (Result-cases (get_next_loop s.server.pool)) [
    | inr (x, g) ↦ absurd (ground (arith, rw (happen, g) at h))
    | inl (lp, g) ↦ elim (Bool-cases (ltb (suc s.server.next_conn_id) (2 ^ 31))) [
      | inr big ↦ absurd (ground (arith, rw (happen, g, big) at h))
      | inl small ↦
          subst IsKept
            (let e : accepted fd lp.0 lp.1 s ≡ r =
                (let f : ok (accepted fd lp.0 lp.1 s) ≡ ok r = rw (happen, g, small) at h in cc) in
              e)
            (accepted-IsKept fd lp.0 lp.1 s v)
    ]
  ]

  closes-IsKept :
      (id : ℕ) (s : System Loop)
      → IsKept s
      → (r : System Loop) × (happen conn_name (closes id) s ≡ ok r) × IsKept r
  unfolding happen
  closes-IsKept id s v = elim (Option-cases (s.open_conns id)) [
    | inl e ↦ (s, rw (happen, e) refl, v)
    | inr (c, e) ↦ (
      record s {
        open_conns = Table.erase ℕ_discrete id s.open_conns;
        removing = Table.insert ℕ_discrete id c s.removing;
      },
      rw (happen, e) refl,
      record {
        opened = λ i d h. v.opened i d (ground (arith, h));
        leaving = λ i d h. elim (Bool-cases (i == id)) [
          | inl same ↦
              let k : i ≡ id = ground arith in
              let m : c ≡ d = ground (arith, h, same) in
              v.opened i d (ap s.open_conns k ∙ e ∙ ap some m)
          | inr away ↦ v.leaving i d (ground (arith, h, away))
        ];
        either = λ i d h. elim (Bool-cases (i == id)) [
          | inl same ↦ absurd (ground (arith, h, same))
          | inr away ↦ ground (arith, away, v.either i d (ground (arith, h, away)))
        ];
      },
    )
  ]

  run-IsKept :
      (es : List Event) (s r : System Loop) → IsKept s → run conn_name es s ≡ ok r → IsKept r
  unfolding run
  run-IsKept [] s r v h = subst IsKept (let e : s ≡ r = cc in e) v
  run-IsKept (accepts fd ∷ es) s r v h = elim (Result-cases (happen conn_name (accepts fd) s)) [
    | inl (t, f) ↦ run-IsKept es t r (accepts-IsKept fd s t v f) (rw f at h)
    | inr (x, f) ↦ absurd (ground (arith, rw f at h))
  ]
  run-IsKept (closes id ∷ es) s r v h =
      let (t, f, w) = closes-IsKept id s v in run-IsKept es t r w (rw f at h)
  run-IsKept (removes id ∷ es) s r v h =
      let (t, f, w) = removes-IsKept id s v in run-IsKept es t r w (rw f at h)

  fresh-IsKept : (pool : LoopPool Loop) → IsKept (fresh pool)
  unfolding init
  fresh-IsKept pool = record {
    opened = λ i c h. absurd (ground (arith, h));
    leaving = λ i c h. absurd (ground (arith, h));
    either = λ i c h. refl;
  }

  -- Where `snprintf` writes different names for different numbers: in every history of a server, the
  -- table has each open connection under its name, and a queued `removeConnectionInLoop` finds the
  -- entry that it erases, so that its assertion holds.
  pub run-registered :
      (pool : LoopPool Loop) (es : List Event) (r : System Loop)
      → run conn_name es (fresh pool) ≡ ok r
      → ((i : ℕ) (c : Conn Loop) → r.open_conns i ≡ some c → r.server.connections c.name ≡ some c)
        × ((i : ℕ) → (t : System Loop) × (happen conn_name (removes i) r ≡ ok t))
  run-registered pool es r h =
      let v = run-IsKept es (fresh pool) r (fresh-IsKept pool) h in
      (
        (λ i c o. let (n, l, f) = v.opened i c o in ap r.server.connections n ∙ f),
        (λ i. let (t, e, w) = removes-IsKept i r v in (t, e)),
      )
