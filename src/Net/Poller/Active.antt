-- ===== src/Net/Poller/Active.antt =====
-- master/net/poller: `fillActiveChannels` of both pollers, and how `EPollPoller::poll` grows `events_`.
use pp_d_scache.Base.{
  ℕ, zero, suc, ◌&&◌, Option-cases, ◌+◌, ◌-◌, ◌*◌, ◌<◌, List, [], ◌∷◌, some, Result, ok, err,
  undefined, ◌>>=◌, ◌>>◌, or_fault, ltb, ◌==◌, if◌then◌else◌, ◌≡◌, refl, arith, get_elem?, map, ap,
  Bool-cases, inl, inr, true,
}
use pp_d_scache.Base.Int.{ℤ-cases, pos, negsuc}
use pp_d_scache.Net.Buffer.{require}
use pp_d_scache.Net.Poller.{Events, has_channel}
use pp_d_scache.Net.Poller.Poll.{PollFd, PollPoller}
use pp_d_scache.Net.Poller.Poll.Sync.{IsSynced}
use pp_d_scache.Net.Poller.Epoll.{Kernel, IsEpoll, EPollPoller}
use pp_d_scache.Net.Poller.Epoll.Track.{IsTracked}

-- An entry with the `revents` that `poll` has put there.
abbrev pub Polled : Type 0
Polled = PollFd × ℕ

-- `channels_.find` of the `fd` of an entry, with the assertions.
unfoldable pub find_channel : PollPoller → PollFd → Result ℕ
find_channel p pfd = elim pfd.fd [
  | negsuc n ↦ err undefined
  | pos fd ↦ do c ← or_fault (p.channels fd) undefined; require ((p.objects c).fd == fd); ok c
]

-- The active channels with their `revents`, until `numEvents` are found.
unfoldable pub fill_active : PollPoller → ℕ → List Polled → Result (List (ℕ × ℕ))
fill_active p n [] = ok []
fill_active p n ((pfd, revents) ∷ l) =
    let rest = fill_active p (if ltb 0 revents then n - 1 else n) l in
    if ltb 0 n
    then (if ltb 0 revents
        then (find_channel p pfd >>= λ c. rest >>= λ active. ok ((c, revents) ∷ active))
        else rest)
    else ok []

-- The channels of all entries with events, in their order.
unfoldable pub ready : PollPoller → List Polled → List (ℕ × ℕ)
ready p [] = []
ready p ((pfd, revents) ∷ l) = elim (find_channel p pfd) [
  | err e ↦ ready p l
  | ok c ↦ if ltb 0 revents then (c, revents) ∷ ready p l else ready p l
]

-- What `poll` returns: the number of entries with events.
unfoldable pub count : List Polled → ℕ
count [] = 0
count ((pfd, revents) ∷ l) = (if ltb 0 revents then 1 else 0) + count l

-- `poll` has put no events at an entry with a negative descriptor.
abbrev pub Ignores : List Polled → Type 0
Ignores l =
    (j fd revents : ℕ) (e : Events)
    → get_elem? l j ≡ some (record { fd = negsuc fd; events = e }, revents)
    → revents ≡ 0

ready_none : (p : PollPoller) (l : List Polled) → count l ≡ 0 → ready p l ≡ []
unfolding ready count
ready_none p [] h = refl
ready_none p ((pfd, revents) ∷ l) h = ground (arith, h, ready_none p l)

-- All entries are of channels at their descriptors.
abbrev Found : PollPoller → List Polled → Type 0
Found p l =
    (j : ℕ) (x : Polled) → get_elem? l j ≡ some x → 0 < x.1 → (c : ℕ) × (find_channel p x.0 ≡ ok c)

fill_active-Found :
    (p : PollPoller) (l : List Polled) → Found p l → fill_active p (count l) l ≡ ok (ready p l)
unfolding fill_active ready count
fill_active-Found p [] f = refl
fill_active-Found p ((pfd, revents) ∷ l) f =
    let rest = fill_active-Found p l (λ j x h. f (suc j) x h) in
    elim (Bool-cases (ltb 0 revents)) [
      | inl w ↦ let r = f 0 (pfd, revents) refl (ground (arith, w)) in ground (arith, w, r.1, rest)
      | inr w ↦ ground (arith, w, rest, ready_none p l)
    ]

found :
    (p : PollPoller) (pfd : PollFd) (c fd : ℕ)
    → pfd.fd ≡ pos fd
    → p.channels fd ≡ some c
    → (p.objects c).fd ≡ fd
    → find_channel p pfd ≡ ok c
unfolding find_channel
found p pfd c fd at mine own = ground (arith, at, mine, own)

get_elem?-fst :
    (l : List Polled) (j : ℕ) (x : Polled)
    → get_elem? l j ≡ some x
    → get_elem? (map (λ (y : Polled). y.0) l) j ≡ some x.0
get_elem?-fst [] j x h = absurd (ground (arith, h))
get_elem?-fst (y ∷ l) zero x h = ground (arith, h)
get_elem?-fst (y ∷ l) (suc j) x h = get_elem?-fst l j x h

-- Where `pollfds_`, `channels_` and the indices agree, and `poll` has returned the number of entries
-- with events and put none at an ignored entry: no assertion fails, and the active channels are
-- those of all entries with events, in order, though the loop stops at the last of them.
pub fill_active-ready :
    (p : PollPoller) (l : List Polled)
    → IsSynced p
    → map (λ (y : Polled). y.0) l ≡ p.pollfds
    → Ignores l
    → fill_active p (count l) l ≡ ok (ready p l)
fill_active-ready p l s entries ignored = fill_active-Found p l (λ j x h some_event.
    let g = get_elem?-fst l j x h in
    let r =
      s.entry j x.0 (ground (arith, g, entries, ap (λ (y : List PollFd). get_elem? y j) entries)) in
    elim (ℤ-cases x.0.fd) [
      | inl w ↦ (
        r.0,
        found p x.0 r.0 w.0 w.1 (ground (arith, r.1.channel, w.1))
            (ground (arith, r.1.same_fd, w.1)),
      )
      | inr w ↦
          absurd (ground (arith, ignored j w.0 x.1 x.0.events (ground (arith, h, w.1)), some_event))
    ])

module _ (E : Kernel) where
  -- What `epoll_wait` returned: the `data.ptr` and the events of each entry of `events_` it filled.
  unfoldable pub fill_active_events : EPollPoller E → List (ℕ × ℕ) → Result (List (ℕ × ℕ))
  fill_active_events p [] = ok []
  fill_active_events p ((c, revents) ∷ l) = do
    require (has_channel (p.objects c).fd c p.channels)
    active ← fill_active_events p l
    ok ((c, revents) ∷ active)

  -- The size of `events_` after a `poll` that returned `n` of at most that many entries.
  unfoldable pub grown : ℕ → ℕ → ℕ
  grown n size = if ltb 0 n && n == size then size * 2 else size

  -- `epoll_wait` reports only what the interest list has.
  abbrev pub Reports : EPollPoller E → List (ℕ × ℕ) → Type 0
  Reports p l =
      (j c revents : ℕ)
      → get_elem? l j ≡ some (c, revents)
      → (fd : ℕ) × (e : Events) × (E.interest p.epoll fd ≡ some (c, e))

  -- When `epoll_wait` reports entries of the interest list, no assertion fails, and each is active.
  pub fill_active_events_all :
      (manual : IsEpoll E) (p : EPollPoller E) (l : List (ℕ × ℕ))
      → IsTracked E manual p
      → Reports p l
      → fill_active_events p l ≡ ok l
  unfolding fill_active_events
  fill_active_events_all manual p [] t reports = refl
  fill_active_events_all manual p ((c, revents) ∷ l) t reports =
      let rest = fill_active_events_all manual p l t (λ j. reports (suc j)) in
      let r = reports 0 c revents refl in
      elim (Option-cases (p.channels r.0)) [
        | inl w ↦ absurd (ground (arith, t.unknown r.0 w, r.2))
        | inr w ↦
            let k = t.known r.0 w.0 w.1 in
            let same : w.0 ≡ c = ground (arith, k.1, r.2) in
            let at : (p.objects c).fd ≡ r.0 =
              ground (arith, k.0, same, ap (λ (x : ℕ). (p.objects x).fd) same) in
            let mine : has_channel (p.objects c).fd c p.channels ≡ true =
              ground (arith, w.1, same, at, ap p.channels at) in
            ground (arith, mine, rest)
      ]
