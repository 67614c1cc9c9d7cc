-- ===== src/Net/Poller/Poll/Refine.antt =====
-- master/net/poller/PollPoller.cc: the calls of `PollPoller` against the descriptors that are
-- registered, with their channels and events.
use pp_d_scache.Base.{
  ℕ, ◌-◌, true, none, some, ok, length, get_elem?, ℕ_discrete, ◌≡◌, sym, ◌⊎◌, inl, inr, arith,
  Option-cases, ◌≢◌, subst, fun_ext,
}
use pp_d_scache.Base.Table
use pp_d_scache.Base.Table.{Table}
use pp_d_scache.Base.Arrays.{back, back-get_elem?}
use pp_d_scache.Base.Int.{ℤ-cases, pos, negsuc}
use pp_d_scache.Net.Poller.{Events, is_none_event, Call, updates, removes, Registered, registered}
use pp_d_scache.Net.Poller.Poll.{
  PollFd, PollPoller, fd_of, add_channel, change_channel, update_channel, swap_out, remove_channel,
  call,
}
use pp_d_scache.Net.Poller.Poll.Sync.{
  IsSynced, asked, added, added-entry, added-member, changed, changed-entry, changed-member,
}
use pp_d_scache.Net.Poller.Poll.Removal.{
  popped, popped-entry, popped-member, swapped, swapped-entry, swapped-member,
}

-- What `updateChannel` has done when it returns.
add_cases :
    (c : ℕ) (e : Events) (p q : PollPoller)
    → add_channel c (asked c e p) ≡ ok q
    → (p.channels (p.objects c).fd ≡ none) × (added c e p ≡ q)
unfolding add_channel
add_cases c e p q h = elim (Option-cases (p.channels (p.objects c).fd)) [
  | inl w ↦ (w, ground (arith, h, w))
  | inr w ↦ absurd (ground (arith, h, w.1))
]

change_cases :
    (c : ℕ) (e : Events) (idx : ℕ) (p q : PollPoller)
    → change_channel c idx (asked c e p) ≡ ok q
    → (p.channels (p.objects c).fd ≡ some c) × (changed c e p idx ≡ q)
unfolding change_channel
change_cases c e idx p q h = (ground (arith, h), ground (arith, h))

pub update_cases :
    (c : ℕ) (e : Events) (p q : PollPoller)
    → call (updates c e) p ≡ ok q
    → ((n : ℕ) × ((p.objects c).index ≡ negsuc n)
        × (p.channels (p.objects c).fd ≡ none)
        × (added c e p ≡ q))
      ⊎ ((idx : ℕ) × ((p.objects c).index ≡ pos idx)
          × (p.channels (p.objects c).fd ≡ some c)
          × (changed c e p idx ≡ q))
unfolding call update_channel
update_cases c e p q h = elim (ℤ-cases (p.objects c).index) [
  | inr r ↦ let a = add_cases c e p q (ground (arith, h, r.1)) in inl (r.0, r.1, a.0, a.1)
  | inl r ↦ let a = change_cases c e r.0 p q (ground (arith, h, r.1)) in inr (r.0, r.1, a.0, a.1)
]

pub swap_cases :
    (c i : ℕ) (p q : PollPoller)
    → swap_out i (record p { channels = Table.erase ℕ_discrete (p.objects c).fd p.channels }) ≡ ok q
    → (pfd : PollFd) × (last : PollFd) × (m : ℕ) × (back p.pollfds ≡ some last)
      × (p.channels (fd_of last.fd) ≡ some m)
      × (swapped p c i last m pfd ≡ q)
unfolding swap_out
swap_cases c i p q h = elim (Option-cases (get_elem? p.pollfds i)) [
  | inl w ↦ absurd (ground (arith, h, w))
  | inr x ↦ elim (Option-cases (back p.pollfds)) [
    | inl w ↦ absurd (ground (arith, h, x.1, w))
    | inr y ↦
        elim (Option-cases (Table.erase ℕ_discrete (p.objects c).fd p.channels (fd_of y.0.fd))) [
          | inl w ↦ absurd (ground (arith, h, x.1, y.1, w))
          | inr z ↦ (x.0, y.0, z.0, y.1, ground (arith, z.1), ground (arith, h, x.1, y.1, z.1))
        ]
  ]
]

pub remove_cases :
    (c : ℕ) (p q : PollPoller)
    → remove_channel c p ≡ ok q
    → (i : ℕ) × ((p.objects c).index ≡ pos i)
      × (p.channels (p.objects c).fd ≡ some c)
      × (is_none_event (p.objects c).events ≡ true)
      × ((i ≡ length p.pollfds - 1) × (popped p c ≡ q)
          ⊎ (i ≢ length p.pollfds - 1)
            × (swap_out i
                  (record p { channels = Table.erase ℕ_discrete (p.objects c).fd p.channels })
                ≡ ok q))
unfolding remove_channel
remove_cases c p q h = elim (ℤ-cases (p.objects c).index) [
  | inr r ↦ absurd (ground (arith, h, r.1))
  | inl r ↦ (
    r.0,
    r.1,
    ground (arith, h, r.1),
    ground (arith, h, r.1),
    elim (ℕ_discrete r.0 (length p.pollfds - 1)) [
      | yes last ↦ inl (last, ground (arith, h, r.1, last))
      | no inner ↦ inr (inner, ground (arith, h, r.1, inner))
    ],
  )
]

-- A call leaves the entries, `channels_` and the indices in agreement.
pub call-IsSynced : (x : Call) (p q : PollPoller) → IsSynced p → call x p ≡ ok q → IsSynced q
call-IsSynced (updates c e) p q s h = elim (update_cases c e p q h) [
  | inl r ↦ subst IsSynced r.3 (record {
    entry = λ j pfd. added-entry p c e s r.0 j pfd r.1 r.2;
    member = λ fd d. added-member p c e s r.0 fd d r.1 r.2;
  })
  | inr r ↦ subst IsSynced r.3 (record {
    entry = λ j pfd. changed-entry p c e s r.0 j pfd r.1 r.2;
    member = λ fd d. changed-member p c e s r.0 fd d r.1 r.2;
  })
]
call-IsSynced (removes c) p q s h =
    let r = remove_cases c p q (unfold call in h) in
    elim r.4 [
      | inl w ↦ subst IsSynced w.1 (record {
        entry = popped-entry p c r.0 s r.1 r.2 w.0;
        member = popped-member p c r.0 s r.1 r.2 w.0;
      })
      | inr w ↦
          let t = swap_cases c r.0 p q w.1 in
          let end : get_elem? p.pollfds (length p.pollfds - 1) ≡ some t.1 =
            ground (arith, back-get_elem? p.pollfds, t.3) in
          subst IsSynced t.5 (record {
            entry = swapped-entry p c r.0 s r.1 r.2 t.1 t.2 end t.4 t.0 w.0;
            member = swapped-member p c r.0 s r.1 r.2 t.1 t.2 end t.4 t.0 w.0;
          })
    ]

abbrev pub fds : PollPoller → ℕ → ℕ
fds p c = (p.objects c).fd

abbrev pub view : PollPoller → Registered
view p = registered p.objects p.channels

pub call-fds : (x : Call) (p q : PollPoller) → call x p ≡ ok q → fds q ≡ fds p
unfolding call
call-fds (updates c e) p q h = elim (update_cases c e p q h) [
  | inl r ↦ fun_ext (λ (d : ℕ). ground (arith, sym r.3))
  | inr r ↦ fun_ext (λ (d : ℕ). ground (arith, sym r.3))
]
call-fds (removes c) p q h =
    let r = remove_cases c p q h in
    elim r.4 [
      | inl w ↦ fun_ext (λ (d : ℕ). ground (arith, sym w.1))
      | inr w ↦ let t = swap_cases c r.0 p q w.1 in fun_ext (λ (d : ℕ). ground (arith, sym t.5))
    ]
