-- ===== src/Net/Poller/Epoll/Track.antt =====
-- master/net/poller/EPollPoller.cc: that the indices of the channels, `channels_` and the kernel's
-- interest list agree, and which calls succeed.
use pp_d_scache.Base.{
  ℕ, true, false, none, some, ◌==◌, if◌then◌else◌, ℕ_discrete, ◌≡◌, ◌⊎◌, arith, sym, ap, ◌≢◌, subst,
}
use pp_d_scache.Base.Int.{ℤ}
use pp_d_scache.Net.Poller.{Events, is_none_event, has_channel, Registered, registered}
use pp_d_scache.Net.Poller.Epoll.{Kernel, IsEpoll, k_new, k_added, k_deleted, EPollPoller}

module _ (E : Kernel) (manual : IsEpoll E) where
  -- The channel is in the interest list with its events, or is out of it and asks for nothing.
  abbrev pub Known : EPollPoller E → ℕ → ℕ → Type 0
  Known p fd c =
      ((p.objects c).index ≡ k_added) × (E.interest p.epoll fd ≡ some (c, (p.objects c).events))
      ⊎ ((p.objects c).index ≡ k_deleted)
        × (E.interest p.epoll fd ≡ none)
        × (is_none_event (p.objects c).events ≡ true)

  pub record IsTracked (p : EPollPoller E) : Type 0 where
    pub known : (fd c : ℕ) → p.channels fd ≡ some c → ((p.objects c).fd ≡ fd) × Known p fd c
    pub unknown : (fd : ℕ) → p.channels fd ≡ none → E.interest p.epoll fd ≡ none
    pub fresh :
        (c : ℕ) → has_channel (p.objects c).fd c p.channels ≡ false → (p.objects c).index ≡ k_new

  abbrev pub fds : EPollPoller E → ℕ → ℕ
  fds p c = (p.objects c).fd

  abbrev pub view : EPollPoller E → Registered
  view p = registered p.objects p.channels

  -- The state that a call leaves: the channel `c` at its descriptor, with the events `e` and the
  -- index `i`, and the rest as it was.
  pub record Leaves (c : ℕ) (e : Events) (i : ℤ) (p q : EPollPoller E) : Type 0 where
    pub objects :
        (d : ℕ)
        → q.objects d
          ≡ (if d == c then record (p.objects c) { events = e; index = i } else p.objects d)
    pub interest : (j : ℕ) → j ≢ fds p c → E.interest q.epoll j ≡ E.interest p.epoll j

  pub kept :
      (c : ℕ) (e : Events) (i : ℤ) (p q : EPollPoller E)
      → IsTracked p
      → Leaves c e i p q
      → ((fd : ℕ) → q.channels fd ≡ (if fd == fds p c then some c else p.channels fd))
      → Known q (fds p c) c
      → ((d : ℕ) → p.channels (fds p c) ≡ some d → d ≡ c)
      → IsTracked q
  kept c e i p q t l channels now own = record {
    known = λ fd d h. elim (ℕ_discrete fd (fds p c)) [
      | yes w ↦
          let same : c ≡ d = ground (arith, channels fd, w, h) in
          subst (λ (x : ℕ). ((q.objects x).fd ≡ fd) × Known q fd x) same
            (ground (arith, l.objects c, w), subst (λ (x : ℕ). Known q x c) (sym w) now)
      | no w ↦
          let old : p.channels fd ≡ some d = ground (arith, channels fd, w, h) in
          let r = t.known fd d old in
          let other : d ≢ c = λ z. w (ground (arith, r.0, z, ap (fds p) z)) in
          ground (arith, r, l.objects d, l.interest fd w, other)
    ];
    unknown = λ fd h. ground (arith, channels fd, h, t.unknown fd, l.interest fd);
    fresh = λ d h. ground (arith, h, l.objects d, channels (fds p d), t.fresh d, own d);
  }

  pub left :
      (c : ℕ) (p q : EPollPoller E)
      → IsTracked p
      → p.channels (fds p c) ≡ some c
      → Leaves c (p.objects c).events k_new p q
      → ((fd : ℕ) → q.channels fd ≡ (if fd == fds p c then none else p.channels fd))
      → E.interest q.epoll (fds p c) ≡ none
      → IsTracked q
  left c p q t mine l channels gone = record {
    known = λ fd d h.
        let w : fd ≢ fds p c = ground (arith, channels fd, h) in
        let old : p.channels fd ≡ some d = ground (arith, channels fd, w, h) in
        let r = t.known fd d old in
        let other : d ≢ c = λ z. w (ground (arith, r.0, z, ap (fds p) z)) in
        ground (arith, r, l.objects d, l.interest fd w, other);
    unknown = λ fd h.
        ground (arith, channels fd, h, t.unknown fd, l.interest fd, gone, ap (E.interest q.epoll));
    fresh = λ d h. ground (arith, h, l.objects d, channels (fds p d), t.fresh d, mine);
  }
