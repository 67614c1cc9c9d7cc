-- ===== src/Net/Poller/Same.antt =====
-- master/net/poller: that `PollPoller` and `EPollPoller` have the kernel wait for the same events.
use pp_d_scache.Base.{
  ℕ, List, [], ◌∷◌, some, Result, ok, ◌>>=◌, ◌≡◌, Result-cases, inl, inr, arith, sym, ◌∙◌, ◌↔◌,
  Option-cases, false, refl, ap, subst, ap₂,
}
use pp_d_scache.Net.Poller.{Events, is_none_event, Call, constructed, Registered, may, register}
use pp_d_scache.Net.Poller.Poll.{PollPoller}
use pp_d_scache.Net.Poller.Poll
use pp_d_scache.Net.Poller.Poll.Sync.{IsSynced}
use pp_d_scache.Net.Poller.Poll.Refine.{call-IsSynced, call-fds}
use pp_d_scache.Net.Poller.Poll.Refine
use pp_d_scache.Net.Poller.Poll.Watch.{call-registers, Polls, Polls-registered}
use pp_d_scache.Net.Poller.Epoll.{Kernel, IsEpoll, EPollPoller, k_added, k_deleted}
use pp_d_scache.Net.Poller.Epoll
use pp_d_scache.Net.Poller.Epoll.Track.{IsTracked}
use pp_d_scache.Net.Poller.Epoll.Track
use pp_d_scache.Net.Poller.Epoll.Calls.{may-Refines}

-- The two pollers have the same channels registered, and each is in order.
record Agree (E : Kernel) (manual : IsEpoll E) (p : PollPoller) (r : EPollPoller E) : Type 0 where
  synced : IsSynced p
  tracked : IsTracked E manual r
  same_fds : Refine.fds p ≡ Track.fds E manual r
  same_view : Refine.view p ≡ Track.view E manual r

module _ (E : Kernel) (manual : IsEpoll E) where
  call-Agree :
      (x : Call) (p q : PollPoller) (r : EPollPoller E)
      → Agree E manual p r
      → Poll.call x p ≡ ok q
      → (t : EPollPoller E) × (Epoll.call E x r ≡ ok t) × Agree E manual q t
  call-Agree x p q r a h =
      let w = call-registers x p q a.synced h in
      let m = may-Refines E manual x r a.tracked (
        ap₂ (λ (f : ℕ → ℕ) (v : Registered). may f x v) (sym a.same_fds) (sym a.same_view) ∙ w.0) in
      (
        m.q,
        m.returns,
        record {
          synced = call-IsSynced x p q a.synced h;
          tracked = m.tracked;
          same_fds = call-fds x p q h ∙ a.same_fds ∙ sym m.same_fds;
          same_view =
              w.1
              ∙ ap₂ (λ (f : ℕ → ℕ) (v : Registered). register f x v) a.same_fds a.same_view
              ∙ sym m.views;
        },
      )

  run-Agree :
      (l : List Call) (p q : PollPoller) (r : EPollPoller E)
      → Agree E manual p r
      → Poll.run_calls l p ≡ ok q
      → (t : EPollPoller E) × (Epoll.run_calls E l r ≡ ok t) × Agree E manual q t
  unfolding Poll.run_calls Epoll.run_calls
  run-Agree [] p q r a h =
      (r, refl, subst (λ (y : PollPoller). Agree E manual y r) (ground (arith, h)) a)
  run-Agree (x ∷ l) p q r a h = elim (Result-cases (Poll.call x p)) [
    | inr w ↦ absurd (ground (arith, h, w.1))
    | inl w ↦
        let s = call-Agree x p w.0 r a w.1 in
        let t = run-Agree l w.0 q s.0 s.2 (ground (arith, h, w.1)) in
        (t.0, ap (λ (y : Result (EPollPoller E)). y >>= Epoll.run_calls E l) s.1 ∙ t.1, t.2)
  ]

  -- `epoll_wait` waits for these events of this descriptor.
  abbrev pub Waits : EPollPoller E → ℕ → Events → Type 0
  Waits r fd e = (c : ℕ) × (E.interest r.epoll fd ≡ some (c, e))

  Waits-registered :
      (r : EPollPoller E) (fd : ℕ) (e : Events)
      → IsTracked E manual r
      → is_none_event e ≡ false
      → Waits r fd e ↔ ((c : ℕ) × (Track.view E manual r fd ≡ some (c, e)))
  Waits-registered r fd e t some_event = elim (Option-cases (r.channels fd)) [
    | inl n ↦
        (λ w. absurd (ground (arith, t.unknown fd n, w.1)), λ w. absurd (ground (arith, n, w.1)))
    | inr n ↦
        let k = t.known fd n.0 n.1 in
        (
          λ w. (n.0, ground (arith, k, n.1, w.1)),
          λ w. (n.0, ground (arith, k, n.1, w.1, some_event)),
        )
  ]

  init-Agree :
      (fds : ℕ → ℕ) → Agree E manual (Poll.init (constructed fds)) (Epoll.init E (constructed fds))
  init-Agree fds = record {
    synced = record {
      entry = λ j pfd h. absurd (ground (arith, h));
      member = λ fd c h. absurd (ground (arith, h));
    };
    tracked = record {
      known = λ fd c h. absurd (ground (arith, h));
      unknown = λ fd h. manual.creates fd;
      fresh = λ c h. refl;
    };
    same_fds = refl;
    same_view = refl;
  }

-- With an epoll instance as its manual describes: where all of a list of calls return with a fresh
-- `PollPoller`, they return with a fresh `EPollPoller` too, and after them the kernel waits for some
-- events of a descriptor for the one exactly when it waits for the same events for the other.
pub pollers_agree :
    (E : Kernel) (manual : IsEpoll E) (fds : ℕ → ℕ) (l : List Call) (q : PollPoller) (fd : ℕ)
    (e : Events)
    → Poll.run_calls l (Poll.init (constructed fds)) ≡ ok q
    → is_none_event e ≡ false
    → (r : EPollPoller E) × (Epoll.run_calls E l (Epoll.init E (constructed fds)) ≡ ok r)
      × (Polls q fd e ↔ Waits E manual r fd e)
pollers_agree E manual fds l q fd e h some_event =
    let t =
      run-Agree E manual l (Poll.init (constructed fds)) q (Epoll.init E (constructed fds))
        (init-Agree E manual fds) h in
    let a = Polls-registered q fd e t.2.synced some_event in
    let b = Waits-registered E manual t.0 fd e t.2.tracked some_event in
    let same = ap (λ (v : Registered). v fd) t.2.same_view in
    (t.0, t.1, (λ w. b.1 ((a.0 w).0, sym same ∙ (a.0 w).1), λ w. a.1 ((b.0 w).0, same ∙ (b.0 w).1)))
