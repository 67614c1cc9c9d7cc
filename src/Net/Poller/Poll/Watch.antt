-- ===== src/Net/Poller/Poll/Watch.antt =====
-- master/net/poller/PollPoller.cc: what `PollPoller` has the kernel wait for, after any calls.
use pp_d_scache.Base.{
  ℕ, true, false, List, [], ◌∷◌, some, ok, err, undefined, length, get_elem?, ◌≡◌, sym, ap, inl,
  inr, arith, Option-cases, Result-cases, ◌↔◌, ◌∙◌, subst, fun_ext,
}
use pp_d_scache.Base.Arrays.{get_elem?-push_back}
use pp_d_scache.Base.Int.{pos, negsuc}
use pp_d_scache.Net.Poller.{Events, is_none_event, Objects, Call, updates, removes, register, may}
use pp_d_scache.Net.Poller.Poll.{
  PollPoller, init, change_channel, update_channel, remove_channel, call, run_calls,
}
use pp_d_scache.Net.Poller.Poll.Sync.{IsSynced}
use pp_d_scache.Net.Poller.Views.{view-updates, view-removes, insert_lookup, erase_lookup}
use pp_d_scache.Net.Poller.Poll.Refine.{
  update_cases, remove_cases, swap_cases, call-IsSynced, fds, view,
}

-- A call that returns was allowed, and registered, changed or removed just its channel.
pub call-registers :
    (x : Call) (p q : PollPoller)
    → IsSynced p
    → call x p ≡ ok q
    → (may (fds p) x (view p) ≡ true) × (view q ≡ register (fds p) x (view p))
unfolding may
call-registers (updates c e) p q s h = (
  elim (update_cases c e p q h) [ inl r ↦ ground (arith, r.2) | inr r ↦ ground (arith, r.2) ],
  let own = λ (fd : ℕ) (w : p.channels fd ≡ some c).
        (s.member fd c w).4.same_fd ∙ (s.member fd c w).3 in
      elim (update_cases c e p q h) [
        | inl r ↦ fun_ext (
            view-updates c e p.objects q.objects p.channels q.channels
              (λ (fd : ℕ).
                ap (λ (y : PollPoller). y.channels fd) (sym r.3)
                ∙ insert_lookup (fds p c) c p.channels fd)
              (λ (d : ℕ). ground (arith, ap (λ (y : PollPoller). (y.objects d).events) r.3)) own)
        | inr r ↦ fun_ext (
            view-updates c e p.objects q.objects p.channels q.channels
              (λ (fd : ℕ).
                ap (λ (y : PollPoller). y.channels fd) (sym r.3) ∙ ground (arith, r.2, own fd))
              (λ (d : ℕ). ground (arith, ap (λ (y : PollPoller). (y.objects d).events) r.3)) own)
      ],
)
call-registers (removes c) p q s h =
    let r = remove_cases c p q (unfold call in h) in
    (
      ground (arith, r.2, r.3),
      elim r.4 [
        | inl w ↦ fun_ext (
            view-removes c p.objects q.objects p.channels q.channels
              (λ (fd : ℕ).
                ap (λ (y : PollPoller). y.channels fd) (sym w.1)
                ∙ erase_lookup (fds p c) p.channels fd)
              (λ (d : ℕ). ground (arith, ap (λ (y : PollPoller). (y.objects d).events) w.1)))
        | inr w ↦
            let t = swap_cases c r.0 p q w.1 in
            fun_ext (
              view-removes c p.objects q.objects p.channels q.channels
                (λ (fd : ℕ).
                  ap (λ (y : PollPoller). y.channels fd) (sym t.5)
                  ∙ erase_lookup (fds p c) p.channels fd)
                (λ (d : ℕ). ground (arith, ap (λ (y : PollPoller). (y.objects d).events) t.5)))
      ],
    )

pub init-IsSynced : (objects : Objects) → IsSynced (init objects)
init-IsSynced objects = record {
  entry = λ j pfd h. absurd (ground (arith, h));
  member = λ fd c h. absurd (ground (arith, h));
}

-- Where `pollfds_`, `channels_` and the indices agree, they agree after any calls that return, also
-- where the last entry takes the place of one that is removed: each entry is of the channel that is
-- registered at its descriptor, at that channel's index and with its events, is ignored only when
-- there are none, and each registered channel has such an entry.
pub run_calls-IsSynced :
    (l : List Call) (p q : PollPoller) → IsSynced p → run_calls l p ≡ ok q → IsSynced q
unfolding run_calls
run_calls-IsSynced [] p q s h = subst IsSynced (ground (arith, h)) s
run_calls-IsSynced (x ∷ l) p q s h = elim (Result-cases (call x p)) [
  | inr w ↦ absurd (ground (arith, h, w.1))
  | inl w ↦ run_calls-IsSynced l w.0 q (call-IsSynced x p w.0 s w.1) (ground (arith, h, w.1))
]

-- `poll` waits for these events of this descriptor.
abbrev pub Polls : PollPoller → ℕ → Events → Type 0
Polls p fd e = (j : ℕ) × (get_elem? p.pollfds j ≡ some (record { fd = pos fd; events = e }))

pub Polls-registered :
    (p : PollPoller) (fd : ℕ) (e : Events)
    → IsSynced p
    → is_none_event e ≡ false
    → Polls p fd e ↔ ((c : ℕ) × (view p fd ≡ some (c, e)))
Polls-registered p fd e s some_event = (
  λ w.
      let r = s.entry w.0 (record { fd = pos fd; events = e }) w.1 in
      (r.0, ground (arith, r.1.channel, r.1.events)),
  λ w. elim (Option-cases (p.channels fd)) [
    | inl n ↦ absurd (ground (arith, w.1, n))
    | inr n ↦
        let m = s.member fd n.0 n.1 in
        (m.0, ground (arith, m.2, m.3, m.4.events, m.4.shown, w.1, n.1, some_event))
  ],
)

-- A channel that was removed cannot ask for events again: its index is still set, so that an assertion
-- fails.
remove-update :
    (c : ℕ) (e : Events) (p q : PollPoller)
    → remove_channel c p ≡ ok q
    → call (updates c e) q ≡ err undefined
unfolding call update_channel change_channel
remove-update c e p q h =
    let r = remove_cases c p q h in
    elim r.4 [
      | inl w ↦
          subst (λ (y : PollPoller). call (updates c e) y ≡ err undefined) w.1 (ground (arith, r.1))
      | inr w ↦
          let t = swap_cases c r.0 p q w.1 in
          subst (λ (y : PollPoller). call (updates c e) y ≡ err undefined) t.5
            (ground (arith, r.1, r.2))
    ]

-- A channel that was added with no events is not removed before it asks for some.
pub add-remove :
    (c : ℕ) (e : Events) (p q : PollPoller)
    → is_none_event e ≡ true
    → (n : ℕ) → (p.objects c).index ≡ negsuc n
    → call (updates c e) p ≡ ok q
    → remove_channel c q ≡ err undefined
unfolding remove_channel
add-remove c e p q idle n new h = elim (update_cases c e p q h) [
  | inl w ↦
      subst (λ (y : PollPoller). remove_channel c y ≡ err undefined) w.3
        (ground (
          arith,
          idle,
          get_elem?-push_back p.pollfds (length p.pollfds)
              (record { fd = pos (p.objects c).fd; events = e }),
        ))
  | inr w ↦ absurd (ground (arith, new, w.1))
]
