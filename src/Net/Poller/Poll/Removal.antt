-- ===== src/Net/Poller/Poll/Removal.antt =====
-- master/net/poller/PollPoller.cc: that `removeChannel` keeps the entries, `channels_` and the indices
-- in agreement, also where the last entry takes the place of the one that goes.
use pp_d_scache.Base.{
  ℕ, suc, ◌-◌, ◌<◌, List, none, some, ltb, ◌==◌, if◌then◌else◌, length, get_elem?, set, ℕ_discrete,
  ◌≡◌, refl, sym, ap, inl, inr, arith, Bool-cases, ◌≢◌, subst, length-set,
}
use pp_d_scache.Base.Table
use pp_d_scache.Base.Table.{Table}
use pp_d_scache.Base.Arrays.{pop_back, get_elem?-set, get_elem?-pop_back, get_elem?_bound}
use pp_d_scache.Base.Int.{pos}
use pp_d_scache.Net.Poller.{put}
use pp_d_scache.Net.Poller.Poll.{PollFd, PollPoller, fd_of}
use pp_d_scache.Net.Poller.Poll.Sync.{IsEntry, IsSynced, carried, owned}

get_elem?_swapped :
    {A : Type 0} (l : List A) (i j : ℕ) (x y : A)
    → i < length l
    → get_elem? (pop_back (set (set l i y) (length l - 1) x)) j
      ≡ (if ltb (suc j) (length l) then if j == i then some y else get_elem? l j else none)
get_elem?_swapped l i j x y bound = ground (
  arith,
  get_elem?-pop_back (set (set l i y) (length l - 1) x) j,
  get_elem?-set (set l i y) (length l - 1) j x,
  get_elem?-set l i j y,
  length-set (set l i y) (length l - 1) x,
  length-set l i y,
  bound,
)

abbrev pub popped : PollPoller → ℕ → PollPoller
popped p c = record p {
  channels = Table.erase ℕ_discrete (p.objects c).fd p.channels;
  pollfds = pop_back p.pollfds;
}

abbrev pub swapped : PollPoller → ℕ → ℕ → PollFd → ℕ → PollFd → PollPoller
swapped p c i last m pfd = record {
  objects = put m (record (p.objects m) { index = pos i }) p.objects;
  channels = Table.erase ℕ_discrete (p.objects c).fd p.channels;
  pollfds = pop_back (set (set p.pollfds i last) (length p.pollfds - 1) pfd);
}

module _ (p : PollPoller) (c : ℕ) (i : ℕ) (s : IsSynced p) (at : (p.objects c).index ≡ pos i)
    (mine : p.channels (p.objects c).fd ≡ some c) where
  abbrev fd : ℕ
  fd = (p.objects c).fd

  bounded : i < length p.pollfds
  bounded =
      let m = s.member fd c mine in
      ground (arith, get_elem?_bound p.pollfds m.0 m.1 m.2, m.4.index, at)

  -- Only the entry at the channel's index is about its descriptor.
  apart : (j : ℕ) (pfd : PollFd) (d : ℕ) → IsEntry p j pfd d → j ≢ i → fd_of pfd.fd ≢ fd
  apart j pfd d e other w =
      let same : c ≡ d = ground (arith, e.channel, mine, w, ap p.channels w) in
      other (ground (arith, e.index, at, ap (λ (x : ℕ). (p.objects x).index) same))

  together : (pfd : PollFd) → get_elem? p.pollfds i ≡ some pfd → fd_of pfd.fd ≡ fd
  together pfd h =
      let m = s.member fd c mine in
      let same : m.0 ≡ i = ground (arith, m.4.index, at) in
      ground (arith, m.2, h, m.3, same, ap (get_elem? p.pollfds) same)

  pub popped-entry :
      i ≡ length p.pollfds - 1
      → (j : ℕ) (pfd : PollFd) → get_elem? (popped p c).pollfds j ≡ some pfd
      → (d : ℕ) × IsEntry (popped p c) j pfd d
  popped-entry last j pfd h =
      let g = get_elem?-pop_back p.pollfds j in
      let r = s.entry j pfd (ground (arith, g, h)) in
      let other : j ≢ i = λ w. ground (arith, w, last, g, h, bounded) in
      (
        r.0,
        carried p (popped p c) j pfd r.0 r.1
            (ground (arith, r.1.channel, apart j pfd r.0 r.1 other)) refl,
      )

  pub popped-member :
      i ≡ length p.pollfds - 1
      → (f d : ℕ) → (popped p c).channels f ≡ some d
      → (j : ℕ) × (pfd : PollFd) × (get_elem? (popped p c).pollfds j ≡ some pfd)
        × (fd_of pfd.fd ≡ f)
        × IsEntry (popped p c) j pfd d
  popped-member last f d h =
      let r = s.member f d (ground (arith, h)) in
      let other : r.0 ≢ i = λ w.
        let q = together r.1 (subst (λ (x : ℕ). get_elem? p.pollfds x ≡ some r.1) w r.2) in
        ground (arith, q, r.3, h) in
      let bound = get_elem?_bound p.pollfds r.0 r.1 r.2 in
      (
        r.0,
        r.1,
        ground (arith, get_elem?-pop_back p.pollfds r.0, r.2, other, bound, last),
        r.3,
        carried p (popped p c) r.0 r.1 d r.4 (ground (arith, r.4.channel, r.3, h)) refl,
      )

  module _ (last : PollFd) (m : ℕ) (end : get_elem? p.pollfds (length p.pollfds - 1) ≡ some last)
      (moved : p.channels (fd_of last.fd) ≡ some m) (pfd : PollFd)
      (inner : i ≢ length p.pollfds - 1) where
    end-IsEntry : IsEntry p (length p.pollfds - 1) last m
    end-IsEntry =
        let r = s.entry (length p.pollfds - 1) last end in
        owned p (length p.pollfds - 1) last r.0 m (fd_of last.fd) r.1 refl moved

    swapped-IsEntry : IsEntry (swapped p c i last m pfd) i last m
    swapped-IsEntry =
        let e = end-IsEntry in
        record {
          channel =
              ground (arith, moved, apart (length p.pollfds - 1) last m e (λ w. inner (sym w)));
          same_fd = ground (arith, e.same_fd);
          index = ground arith;
          events = ground (arith, e.events);
          shown = e.shown;
        }

    pub swapped-entry :
        (j : ℕ) (x : PollFd)
        → get_elem? (swapped p c i last m pfd).pollfds j ≡ some x
        → (d : ℕ) × IsEntry (swapped p c i last m pfd) j x d
    swapped-entry j x h =
        let g = get_elem?_swapped p.pollfds i j pfd last bounded in
        elim (Bool-cases (j == i)) [
          | inl new ↦ (
            m,
            subst (λ (n : ℕ). IsEntry (swapped p c i last m pfd) n x m) (ground (arith, new))
                (subst (λ (y : PollFd). IsEntry (swapped p c i last m pfd) i y m)
                  (ground (arith, g, new, h)) swapped-IsEntry),
          )
          | inr old ↦
              let r = s.entry j x (ground (arith, g, old, h)) in
              let other : r.0 ≢ m = λ w. ground (
                arith,
                r.1.index,
                end-IsEntry.index,
                ap (λ (y : ℕ). (p.objects y).index) w,
                g,
                h,
              ) in
              (
                r.0,
                carried p (swapped p c i last m pfd) j x r.0 r.1
                    (ground (arith, r.1.channel, apart j x r.0 r.1 (ground (arith, old))))
                    (ground (arith, other)),
              )
        ]

    pub swapped-member :
        (f d : ℕ)
        → (swapped p c i last m pfd).channels f ≡ some d
        → (j : ℕ) × (x : PollFd) × (get_elem? (swapped p c i last m pfd).pollfds j ≡ some x)
          × (fd_of x.fd ≡ f)
          × IsEntry (swapped p c i last m pfd) j x d
    swapped-member f d h =
        let r = s.member f d (ground (arith, h)) in
        let bound = get_elem?_bound p.pollfds r.0 r.1 r.2 in
        elim (Bool-cases (r.0 == length p.pollfds - 1)) [
          | inl new ↦
              let twin : r.1 ≡ last = ground (arith, new, r.2, end) in
              let same : m ≡ d = ground (
                arith,
                moved,
                r.3,
                r.4.channel,
                twin,
                ap (λ (y : PollFd). p.channels (fd_of y.fd)) twin,
              ) in
              (
                i,
                last,
                ground (arith, get_elem?_swapped p.pollfds i i pfd last bounded, bounded, inner),
                ground (arith, r.3, twin),
                subst (IsEntry (swapped p c i last m pfd) i last) same swapped-IsEntry,
              )
          | inr old ↦
              let other : r.0 ≢ i = λ w.
                let q = together r.1 (subst (λ (y : ℕ). get_elem? p.pollfds y ≡ some r.1) w r.2) in
                ground (arith, q, r.3, h) in
              let found : get_elem? (swapped p c i last m pfd).pollfds r.0 ≡ some r.1 = ground (
                arith,
                get_elem?_swapped p.pollfds i r.0 pfd last bounded,
                r.2,
                other,
                old,
                bound,
              ) in
              let t = swapped-entry r.0 r.1 found in
              (
                r.0,
                r.1,
                found,
                r.3,
                owned (swapped p c i last m pfd) r.0 r.1 t.0 d f t.1 r.3 (ground (arith, h)),
              )
        ]
