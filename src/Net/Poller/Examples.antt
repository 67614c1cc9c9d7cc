-- ===== src/Net/Poller/Examples.antt =====
-- The theorems on the pollers at channels of descriptors that the kernel model below waits for.
use pp_d_scache.Base.{
  ℕ, zero, suc, ◌+◌, List, [], ◌∷◌, Option, none, some, Result, ok, err, undefined, ◌==◌,
  if◌then◌else◌, ◌≡◌, refl, arith, true, false, ◌↔◌, ◌⊎◌, ap, Bool, subst, Bool-cases, inl, inr,
  ℕ_discrete,
}
use pp_d_scache.Net.Poller.{
  Events, Call, updates, removes, constructed, register, may, has_channel, put,
}
use pp_d_scache.Net.Poller.Poll.{PollPoller, PollFd}
use pp_d_scache.Net.Poller.Poll
use pp_d_scache.Net.Poller.Poll.Watch.{Polls, init-IsSynced, run_calls-IsSynced, call-registers}
use pp_d_scache.Net.Poller.Poll.Sync.{IsSynced}
use pp_d_scache.Net.Poller.Poll.Refine
use pp_d_scache.Net.Poller.Epoll.Track.{IsTracked, Known}
use pp_d_scache.Net.Poller.Epoll.Track
use pp_d_scache.Net.Poller.Epoll.Calls.{Refines, call-Refines}
use pp_d_scache.Net.Poller.Active.{
  Polled, Ignores, fill_active, ready, count, find_channel, fill_active-ready,
}
use pp_d_scache.Base.Int.{pos, negsuc}
use pp_d_scache.Net.Poller.Epoll.{
  Kernel, IsEpoll, Op, add, mod_, del, EPollPoller, update, update_channel, add_channel,
  change_channel, remove_channel, k_added, k_new,
}
use pp_d_scache.Net.Poller.Epoll
use pp_d_scache.Net.Poller.Same.{pollers_agree, Waits}

-- An interest list that refuses what the manual says it refuses.
abbrev interest_list : Kernel
interest_list = record {
  K = ℕ → Option (ℕ × Events);
  ctl = λ op fd v k. elim (k fd) [
    | none ↦ elim op [
      | add ↦ some (λ j. if j == fd then some v else k j)
      | mod_ ↦ none
      | del ↦ none
    ]
    | some w ↦ elim op [
      | add ↦ none
      | mod_ ↦ some (λ j. if j == fd then some v else k j)
      | del ↦ some (λ j. if j == fd then none else k j)
    ]
  ];
  interest = λ k. k;
  create = λ fd. none;
}

interest_list-IsEpoll : IsEpoll interest_list
interest_list-IsEpoll = record {
  creates = λ fd. refl;
  adds = λ fd v k h. (λ j. if j == fd then some v else k j, ground (arith, h), λ j. refl);
  changes = λ fd v w k h. (λ j. if j == fd then some v else k j, ground (arith, h), λ j. refl);
  drops = λ fd v w k h. (λ j. if j == fd then none else k j, ground (arith, h), λ j. refl);
}

abbrev in_and_out : Events
in_and_out = record { reading = true; writing = true }

abbrev in_only : Events
in_only = record { reading = true; writing = false }

abbrev nothing : Events
nothing = record { reading = false; writing = false }

-- The channel at `c` has the descriptor `c + 3`. The first of three is removed, so that the last one
-- takes its place, and then asks for other events.
abbrev life : List Call
life =
    updates 0 in_only
    ∷ updates 1 in_only
    ∷ updates 2 in_only
    ∷ updates 0 nothing
    ∷ removes 0
    ∷ updates 2 in_and_out
    ∷ updates 1 nothing
    ∷ []

abbrev fds : ℕ → ℕ
fds c = c + 3

-- The poller that those calls leave.
abbrev after : Result PollPoller
after = Poll.run_calls life (Poll.init (constructed fds))

abbrev or_init : Result PollPoller → PollPoller
or_init (ok p) = p
or_init (err e) = Poll.init (constructed fds)

abbrev left : PollPoller
left = or_init after

left_entries :
    left.pollfds
    ≡ record { fd = pos 5; events = in_and_out } ∷ record { fd = negsuc 4; events = nothing } ∷ []
unfolding Poll.run_calls Poll.call Poll.update_channel Poll.add_channel Poll.change_channel
    Poll.remove_channel Poll.swap_out ℕ_discrete
left_entries = refl

pollers_agree_example :
    (r : EPollPoller interest_list) × (Epoll.run_calls interest_list life
        (Epoll.init interest_list (constructed fds))
      ≡ ok r)
    × (Polls left 5 in_and_out ↔ Waits interest_list interest_list-IsEpoll r 5 in_and_out)
unfolding Poll.run_calls Poll.call Poll.update_channel Poll.add_channel Poll.change_channel
    Poll.remove_channel Poll.swap_out ℕ_discrete
pollers_agree_example =
    pollers_agree interest_list interest_list-IsEpoll fds life left 5 in_and_out refl refl

run_calls-IsSynced_example : IsSynced left
unfolding Poll.run_calls Poll.call Poll.update_channel Poll.add_channel Poll.change_channel
    Poll.remove_channel Poll.swap_out ℕ_discrete
run_calls-IsSynced_example =
    run_calls-IsSynced life (Poll.init (constructed fds)) left (init-IsSynced (constructed fds))
      refl

left-IsSynced : IsSynced left
unfolding Poll.run_calls Poll.call Poll.update_channel Poll.add_channel Poll.change_channel
    Poll.remove_channel Poll.swap_out ℕ_discrete
left-IsSynced =
    run_calls-IsSynced life (Poll.init (constructed fds)) left (init-IsSynced (constructed fds))
      refl

-- The channel 1 goes too.
abbrev one_left : PollPoller
one_left = or_init (Poll.remove_channel 1 left)

call-registers_example :
    (may (Refine.fds left) (removes 1) (Refine.view left) ≡ true)
    × (Refine.view one_left ≡ register (Refine.fds left) (removes 1) (Refine.view left))
unfolding Poll.run_calls Poll.call Poll.update_channel Poll.add_channel Poll.change_channel
    Poll.remove_channel Poll.swap_out ℕ_discrete
call-registers_example = call-registers (removes 1) left one_left left-IsSynced refl

-- `poll` reports input and a hangup at the first entry, and nothing at the ignored one.
abbrev polled : List Polled
polled =
    (record { fd = pos 5; events = in_and_out }, 17)
    ∷ (record { fd = negsuc 4; events = nothing }, 0)
    ∷ []

polled-Ignores : Ignores polled
polled-Ignores zero fd revents e h = absurd (ground (arith, h))
polled-Ignores (suc zero) fd revents e h = ground (arith, h)
polled-Ignores (suc (suc j)) fd revents e h = absurd (ground (arith, h))

fill_active-ready_example : fill_active left 1 polled ≡ ok ((2, 17) ∷ [])
unfolding fill_active ready count find_channel Poll.run_calls Poll.call Poll.update_channel
    Poll.add_channel Poll.change_channel Poll.remove_channel Poll.swap_out ℕ_discrete
fill_active-ready_example = fill_active-ready left polled left-IsSynced refl polled-Ignores

-- The channel 0 has asked for input.
abbrev listening : EPollPoller interest_list
listening = record {
  objects = put 0 (record { fd = 3; events = in_only; index = k_added }) (constructed fds);
  channels = λ j. if j == 3 then some 0 else none;
  epoll = λ j. if j == 3 then some (0, in_only) else none;
}

quiet : (c : ℕ) → (listening.objects (suc c)).index ≡ k_new
quiet c = ground arith

unheard :
    (c : ℕ)
    → has_channel (listening.objects c).fd c listening.channels ≡ false
    → (listening.objects c).index ≡ k_new
unheard zero h = absurd (ground (arith, h))
unheard (suc c) h = quiet c

listening-IsTracked : IsTracked interest_list interest_list-IsEpoll listening
listening-IsTracked = record {
  known = λ fd c h. elim (Bool-cases (fd == 3)) [
    | inl w ↦
        let first : ◌≡◌ {A = ℕ} 0 c = ground (arith, h, w) in
        let at : ◌≡◌ {A = ℕ} 3 fd = ground (arith, w) in
        subst
          (λ (x : ℕ).
            ((listening.objects x).fd ≡ fd)
            × Known interest_list interest_list-IsEpoll listening fd x)
          first
          (subst
            (λ (f : ℕ).
              ((listening.objects 0).fd ≡ f)
              × Known interest_list interest_list-IsEpoll listening f 0)
            at (refl, inl (refl, refl)))
    | inr w ↦ absurd (ground (arith, h, w))
  ];
  unknown = λ fd h. elim (Bool-cases (fd == 3)) [
    | inl w ↦ absurd (ground (arith, h, w))
    | inr w ↦ ap (λ (b : Bool). if b then some (0, in_only) else none) w
  ];
  fresh = unheard;
}

-- It asks for nothing any more.
call-Refines_example :
    (may
          (Track.fds interest_list interest_list-IsEpoll listening)
          (updates 0 nothing)
          (Track.view interest_list interest_list-IsEpoll listening)
        ≡ true)
      × Refines interest_list interest_list-IsEpoll (updates 0 nothing) listening
    ⊎ (may
          (Track.fds interest_list interest_list-IsEpoll listening)
          (updates 0 nothing)
          (Track.view interest_list interest_list-IsEpoll listening)
        ≡ false)
      × (Epoll.call interest_list (updates 0 nothing) listening ≡ err undefined)
call-Refines_example =
    call-Refines interest_list interest_list-IsEpoll (updates 0 nothing) listening
      listening-IsTracked
