-- ===== src/Net/Poller/Poll/Sync.antt =====
-- master/net/poller/PollPoller.cc: that `pollfds_`, `channels_` and the indices of the channels
-- agree, after each call.
use pp_d_scache.Base.{
  ℕ, ◌<◌, false, [], ◌∷◌, ◌++◌, none, some, ◌==◌, if◌then◌else◌, length, get_elem?, set, ℕ_discrete,
  ◌≡◌, sym, ap, inl, inr, arith, Bool-cases, ◌≢◌, ◌∙◌, subst,
}
use pp_d_scache.Base.Table
use pp_d_scache.Base.Table.{Table}
use pp_d_scache.Base.Arrays.{get_elem?-set, get_elem?-push_back, get_elem?_bound}
use pp_d_scache.Base.Int.{pos, negsuc}
use pp_d_scache.Net.Poller.{Events, is_none_event, Object, put}
use pp_d_scache.Net.Poller.Poll.{PollFd, PollPoller, fd_of}

-- The entry at `j` is the one of the channel at `c`: its descriptor, the events that it asks for,
-- and its index. Only a channel with no events has its entry ignored.
pub record IsEntry (p : PollPoller) (j : ℕ) (pfd : PollFd) (c : ℕ) : Type 0 where
  pub channel : p.channels (fd_of pfd.fd) ≡ some c
  pub same_fd : (p.objects c).fd ≡ fd_of pfd.fd
  pub index : (p.objects c).index ≡ pos j
  pub events : pfd.events ≡ (p.objects c).events
  pub shown : is_none_event pfd.events ≡ false → pfd.fd ≡ pos (fd_of pfd.fd)

pub record IsSynced (p : PollPoller) : Type 0 where
  pub entry :
      (j : ℕ) (pfd : PollFd) → get_elem? p.pollfds j ≡ some pfd → (c : ℕ) × IsEntry p j pfd c
  pub member :
      (fd c : ℕ)
      → p.channels fd ≡ some c
      → (j : ℕ) × (pfd : PollFd) × (get_elem? p.pollfds j ≡ some pfd)
        × (fd_of pfd.fd ≡ fd)
        × IsEntry p j pfd c

-- What an entry of another channel needs to stay as it is.
pub carried :
    (p q : PollPoller) (j : ℕ) (pfd : PollFd) (c : ℕ)
    → IsEntry p j pfd c
    → q.channels (fd_of pfd.fd) ≡ some c
    → q.objects c ≡ p.objects c
    → IsEntry q j pfd c
carried p q j pfd c e channel same = record {
  channel = channel;
  same_fd = ap (λ (o : Object). o.fd) same ∙ e.same_fd;
  index = ap (λ (o : Object). o.index) same ∙ e.index;
  events = e.events ∙ sym (ap (λ (o : Object). o.events) same);
  shown = e.shown;
}

-- An entry belongs to the channel that `channels_` has at its descriptor.
pub owned :
    (q : PollPoller) (j : ℕ) (pfd : PollFd) (c d f : ℕ)
    → IsEntry q j pfd c
    → fd_of pfd.fd ≡ f
    → q.channels f ≡ some d
    → IsEntry q j pfd d
owned q j pfd c d f e at h =
    subst (IsEntry q j pfd) (ground (arith, e.channel, at, h, ap q.channels at)) e

-- The state after `channel` asked for `events`, before the poller knows.
abbrev pub asked : ℕ → Events → PollPoller → PollPoller
asked c e p = record p { objects = put c (record (p.objects c) { events = e }) p.objects }

abbrev pub added : ℕ → Events → PollPoller → PollPoller
added c e p = record {
  objects =
      put c (record (p.objects c) { events = e; index = pos (length p.pollfds) })
        (asked c e p).objects;
  channels = Table.insert ℕ_discrete (p.objects c).fd c p.channels;
  pollfds = p.pollfds ++ (record { fd = pos (p.objects c).fd; events = e } ∷ []);
}

abbrev pub changed : ℕ → Events → PollPoller → ℕ → PollPoller
changed c e p idx = record (asked c e p) {
  pollfds = set p.pollfds idx (record {
    fd = if is_none_event e then negsuc (p.objects c).fd else pos (p.objects c).fd;
    events = e;
  });
}

module _ (p : PollPoller) (c : ℕ) (e : Events) (s : IsSynced p) where
  pub added-entry :
      (n : ℕ) (j : ℕ) (pfd : PollFd)
      → (p.objects c).index ≡ negsuc n
      → p.channels (p.objects c).fd ≡ none
      → get_elem? (added c e p).pollfds j ≡ some pfd
      → (d : ℕ) × IsEntry (added c e p) j pfd d
  added-entry n j pfd out free h =
      let g = get_elem?-push_back p.pollfds j (record { fd = pos (p.objects c).fd; events = e }) in
      elim (Bool-cases (j == length p.pollfds)) [
        | inl new ↦
            let same : pfd ≡ record { fd = pos (p.objects c).fd; events = e } =
              ground (arith, g, new, h) in
            (
              c,
              record {
                channel = ground (arith, same);
                same_fd = ground (arith, same);
                index = ground (arith, new);
                events = ground (arith, same);
                shown = λ _. ground (arith, same);
              },
            )
        | inr old ↦
            let r = s.entry j pfd (ground (arith, g, old, h)) in
            let other : r.0 ≢ c =
              λ w. ground (arith, r.1.index, out, ap (λ (x : ℕ). (p.objects x).index) w) in
            (
              r.0,
              carried p (added c e p) j pfd r.0 r.1
                  (ground (arith, r.1.channel, free, ap p.channels)) (ground (arith, other)),
            )
      ]

  pub added-member :
      (n : ℕ) (fd d : ℕ)
      → (p.objects c).index ≡ negsuc n
      → p.channels (p.objects c).fd ≡ none
      → (added c e p).channels fd ≡ some d
      → (j : ℕ) × (pfd : PollFd) × (get_elem? (added c e p).pollfds j ≡ some pfd)
        × (fd_of pfd.fd ≡ fd)
        × IsEntry (added c e p) j pfd d
  added-member n fd d out free h = elim (ℕ_discrete fd (p.objects c).fd) [
    | yes new ↦
        let pfd : PollFd = record { fd = pos (p.objects c).fd; events = e } in
        let g : get_elem? (added c e p).pollfds (length p.pollfds) ≡ some pfd =
          ground (arith, get_elem?-push_back p.pollfds (length p.pollfds) pfd) in
        let r = added-entry n (length p.pollfds) pfd out free g in
        (
          length p.pollfds,
          pfd,
          g,
          sym new,
          owned (added c e p) (length p.pollfds) pfd r.0 d fd r.1 (sym new) h,
        )
    | no old ↦
        let r = s.member fd d (ground (arith, h, old)) in
        let g : get_elem? (added c e p).pollfds r.0 ≡ some r.1 = ground (
          arith,
          get_elem?-push_back p.pollfds r.0 (record { fd = pos (p.objects c).fd; events = e }),
          get_elem?_bound p.pollfds r.0 r.1 r.2,
          r.2,
        ) in
        let t = added-entry n r.0 r.1 out free g in
        (r.0, r.1, g, r.3, owned (added c e p) r.0 r.1 t.0 d fd t.1 r.3 h)
  ]

  pub changed-entry :
      (idx : ℕ) (j : ℕ) (pfd : PollFd)
      → (p.objects c).index ≡ pos idx
      → p.channels (p.objects c).fd ≡ some c
      → get_elem? (changed c e p idx).pollfds j ≡ some pfd
      → (d : ℕ) × IsEntry (changed c e p idx) j pfd d
  changed-entry idx j pfd at mine h =
      let now : PollFd = record {
        fd = if is_none_event e then negsuc (p.objects c).fd else pos (p.objects c).fd;
        events = e;
      } in
      let g = get_elem?-set p.pollfds idx j now in
      let m = s.member (p.objects c).fd c mine in
      let bound : idx < length p.pollfds =
        ground (arith, get_elem?_bound p.pollfds m.0 m.1 m.2, m.4.index, at) in
      elim (Bool-cases (j == idx)) [
        | inl new ↦
            let same : pfd ≡ now = ground (arith, g, new, h, bound) in
            (
              c,
              record {
                channel = ground (arith, same);
                same_fd = ground (arith, same);
                index = ground (arith, new);
                events = ground (arith, same);
                shown = λ w. ground (arith, same, w);
              },
            )
        | inr old ↦
            let r = s.entry j pfd (ground (arith, g, old, h)) in
            let other : r.0 ≢ c =
              λ w. ground (arith, old, r.1.index, at, ap (λ (x : ℕ). (p.objects x).index) w) in
            (r.0, carried p (changed c e p idx) j pfd r.0 r.1 r.1.channel (ground (arith, other)))
      ]

  pub changed-member :
      (idx : ℕ) (fd d : ℕ)
      → (p.objects c).index ≡ pos idx
      → p.channels (p.objects c).fd ≡ some c
      → p.channels fd ≡ some d
      → (j : ℕ) × (pfd : PollFd) × (get_elem? (changed c e p idx).pollfds j ≡ some pfd)
        × (fd_of pfd.fd ≡ fd)
        × IsEntry (changed c e p idx) j pfd d
  changed-member idx fd d at mine h =
      let now : PollFd = record {
        fd = if is_none_event e then negsuc (p.objects c).fd else pos (p.objects c).fd;
        events = e;
      } in
      let r = s.member fd d h in
      let g = get_elem?-set p.pollfds idx r.0 now in
      let bound = get_elem?_bound p.pollfds r.0 r.1 r.2 in
      elim (Bool-cases (r.0 == idx)) [
        | inl new ↦
            let m = s.member (p.objects c).fd c mine in
            let twin : r.1 ≡ m.1 = ground (arith, r.2, m.2, m.4.index, at, new) in
            let same : fd ≡ (p.objects c).fd = ground (arith, twin, m.3, r.3) in
            let found : get_elem? (changed c e p idx).pollfds r.0 ≡ some now =
              ground (arith, g, new, bound) in
            let t = changed-entry idx r.0 now at mine found in
            (
              r.0,
              now,
              found,
              ground (arith, same),
              owned (changed c e p idx) r.0 now t.0 d fd t.1 (ground (arith, same)) h,
            )
        | inr old ↦
            let found : get_elem? (changed c e p idx).pollfds r.0 ≡ some r.1 =
              ground (arith, g, old, r.2) in
            let t = changed-entry idx r.0 r.1 at mine found in
            (r.0, r.1, found, r.3, owned (changed c e p idx) r.0 r.1 t.0 d fd t.1 r.3 h)
      ]
