-- ===== src/Net/Poller/Epoll/Calls.antt =====
-- master/net/poller/EPollPoller.cc: which calls of `EPollPoller` succeed, and what they leave.
use pp_d_scache.Base.{
  ℕ, true, false, none, some, ◌==◌, if◌then◌else◌, ok, err, undefined, ℕ_discrete, ◌≡◌, ◌⊎◌, inl,
  inr, Option-cases, Bool-cases, arith, refl, ap, ◌≢◌, fun_ext,
}
use pp_d_scache.Base.Table
use pp_d_scache.Base.Table.{Table}
use pp_d_scache.Base.Int.{ℤ}
use pp_d_scache.Net.Poller.{Events, is_none_event, put, Call, updates, removes, register, may}
use pp_d_scache.Net.Poller.Epoll.{
  Kernel, IsEpoll, k_new, k_added, k_deleted, EPollPoller, update, add_channel, change_channel,
  update_channel, remove_channel, call,
}
use pp_d_scache.Net.Poller.Views.{view-updates, view-removes}
use pp_d_scache.Net.Poller.Epoll.Track.{IsTracked, Known, Leaves, kept, left, fds, view}

module _ (E : Kernel) (manual : IsEpoll E) (p : EPollPoller E) (c : ℕ)
    (t : IsTracked E manual p) where
  -- `update_channel` returned, with the channel at its descriptor.
  record Updated (e : Events) : Type 0 where
    q : EPollPoller E
    returns : call E (updates c e) p ≡ ok q
    i : ℤ
    leaves : Leaves E manual c e i p q
    channels : (fd : ℕ) → q.channels fd ≡ (if fd == (p.objects c).fd then some c else p.channels fd)
    known : Known E manual q (p.objects c).fd c

  -- A new channel, which `epoll_ctl` adds.
  updates_new : (e : Events) → p.channels (p.objects c).fd ≡ none → Updated e
  unfolding call update_channel add_channel update
  updates_new e free =
      let new : (p.objects c).index ≡ k_new = t.fresh c (ground (arith, free)) in
      let k = manual.adds (p.objects c).fd (c, e) p.epoll (t.unknown (p.objects c).fd free) in
      record {
        q = record {
          objects =
              put c (record (p.objects c) { events = e; index = k_added })
                (put c (record (p.objects c) { events = e }) p.objects);
          channels = Table.insert ℕ_discrete (p.objects c).fd c p.channels;
          epoll = k.0;
        };
        returns = ground (arith, new, free, k.1);
        i = k_added;
        leaves = record { objects = λ d. ground arith; interest = λ j w. ground (arith, k.2 j, w) };
        channels = λ fd. ground arith;
        known = inl (ground arith, ground (arith, k.2 (p.objects c).fd));
      }

  -- A channel that was deleted, which `epoll_ctl` adds again.
  updates_back :
      (e : Events)
      → p.channels (p.objects c).fd ≡ some c
      → (p.objects c).index ≡ k_deleted
      → E.interest p.epoll (p.objects c).fd ≡ none
      → Updated e
  unfolding call update_channel add_channel change_channel update
  updates_back e mine at out =
      let k = manual.adds (p.objects c).fd (c, e) p.epoll out in
      record {
        q = record {
          objects =
              put c (record (p.objects c) { events = e; index = k_added })
                (put c (record (p.objects c) { events = e }) p.objects);
          channels = p.channels;
          epoll = k.0;
        };
        returns = ground (arith, mine, at, k.1);
        i = k_added;
        leaves = record {
          objects = λ d. ground (arith, at);
          interest = λ j w. ground (arith, k.2 j, w);
        };
        channels = λ fd. ground (arith, mine, ap p.channels);
        known = inl (ground arith, ground (arith, k.2 (p.objects c).fd));
      }

  -- A channel that asks for other events.
  updates_changed :
      (e : Events)
      → p.channels (p.objects c).fd ≡ some c
      → (p.objects c).index ≡ k_added
      → E.interest p.epoll (p.objects c).fd ≡ some (c, (p.objects c).events)
      → is_none_event e ≡ false
      → Updated e
  unfolding call update_channel add_channel change_channel update
  updates_changed e mine at inside some_event =
      let k = manual.changes (p.objects c).fd (c, e) (c, (p.objects c).events) p.epoll inside in
      record {
        q = record {
          objects = put c (record (p.objects c) { events = e }) p.objects;
          channels = p.channels;
          epoll = k.0;
        };
        returns = ground (arith, mine, at, some_event, k.1);
        i = k_added;
        leaves = record {
          objects = λ d. ground (arith, at, some_event);
          interest = λ j w. ground (arith, k.2 j, w);
        };
        channels = λ fd. ground (arith, mine, ap p.channels);
        known = inl (ground (arith, at), ground (arith, k.2 (p.objects c).fd));
      }

  -- A channel that asks for nothing any more, which `epoll_ctl` deletes.
  updates_none :
      (e : Events)
      → p.channels (p.objects c).fd ≡ some c
      → (p.objects c).index ≡ k_added
      → E.interest p.epoll (p.objects c).fd ≡ some (c, (p.objects c).events)
      → is_none_event e ≡ true
      → Updated e
  unfolding call update_channel add_channel change_channel update
  updates_none e mine at inside no_event =
      let k = manual.drops (p.objects c).fd (c, e) (c, (p.objects c).events) p.epoll inside in
      record {
        q = record {
          objects =
              put c (record (p.objects c) { events = e; index = k_deleted })
                (put c (record (p.objects c) { events = e }) p.objects);
          channels = p.channels;
          epoll = k.0;
        };
        returns = ground (arith, mine, at, no_event, k.1);
        i = k_deleted;
        leaves = record {
          objects = λ d. ground (arith, at, no_event);
          interest = λ j w. ground (arith, k.2 j, w);
        };
        channels = λ fd. ground (arith, mine, ap p.channels);
        known = inr (ground arith, ground (arith, k.2 (p.objects c).fd), ground (arith, no_event));
      }

  updates_known : (e : Events) → p.channels (p.objects c).fd ≡ some c → Updated e
  updates_known e mine = elim (t.known (p.objects c).fd c mine).1 [
    | inl k ↦ elim (Bool-cases (is_none_event e)) [
      | inl w ↦ updates_none e mine k.0 k.1 w
      | inr w ↦ updates_changed e mine k.0 k.1 w
    ]
    | inr k ↦ updates_back e mine k.0 k.1
  ]

  record Removed : Type 0 where
    q : EPollPoller E
    returns : call E (removes c) p ≡ ok q
    leaves : Leaves E manual c (p.objects c).events k_new p q
    channels : (fd : ℕ) → q.channels fd ≡ (if fd == (p.objects c).fd then none else p.channels fd)
    gone : E.interest q.epoll (p.objects c).fd ≡ none

  removes_known :
      p.channels (p.objects c).fd ≡ some c → is_none_event (p.objects c).events ≡ true → Removed
  unfolding call remove_channel update
  removes_known mine idle = elim (t.known (p.objects c).fd c mine).1 [
    | inl w ↦
        let k =
          manual.drops (p.objects c).fd (c, (p.objects c).events) (c, (p.objects c).events) p.epoll
            w.1 in
        record {
          q = record {
            objects = put c (record (p.objects c) { index = k_new }) p.objects;
            channels = Table.erase ℕ_discrete (p.objects c).fd p.channels;
            epoll = k.0;
          };
          returns = ground (arith, mine, idle, w.0, k.1);
          leaves = record {
            objects = λ d. ground arith;
            interest = λ j z. ground (arith, k.2 j, z);
          };
          channels = λ fd. ground arith;
          gone = ground (arith, k.2 (p.objects c).fd);
        }
    | inr w ↦ record {
      q = record {
        objects = put c (record (p.objects c) { index = k_new }) p.objects;
        channels = Table.erase ℕ_discrete (p.objects c).fd p.channels;
        epoll = p.epoll;
      };
      returns = ground (arith, mine, idle, w.0);
      leaves = record { objects = λ d. ground arith; interest = λ j z. refl };
      channels = λ fd. ground arith;
      gone = w.1;
    }
  ]

-- The call returned, registered, changed or removed just its channel, and kept the agreement.
pub record Refines (E : Kernel) (manual : IsEpoll E) (x : Call) (p : EPollPoller E) : Type 0 where
  pub q : EPollPoller E
  pub returns : call E x p ≡ ok q
  pub tracked : IsTracked E manual q
  pub views : view E manual q ≡ register (fds E manual p) x (view E manual p)
  pub same_fds : fds E manual q ≡ fds E manual p

Leaves-fds :
    (E : Kernel) (manual : IsEpoll E) (c : ℕ) (e : Events) (i : ℤ) (p q : EPollPoller E)
    → Leaves E manual c e i p q
    → fds E manual q ≡ fds E manual p
Leaves-fds E manual c e i p q l = fun_ext (λ (d : ℕ). ground (arith, l.objects d))

updates-Refines :
    (E : Kernel) (manual : IsEpoll E) (c : ℕ) (e : Events) (p : EPollPoller E)
    (t : IsTracked E manual p)
    → ((d : ℕ) → p.channels (p.objects c).fd ≡ some d → d ≡ c)
    → Updated E manual p c t e
    → Refines E manual (updates c e) p
updates-Refines E manual c e p t own u = record {
  q = u.q;
  returns = u.returns;
  tracked = kept E manual c e u.i p u.q t u.leaves u.channels u.known own;
  views = fun_ext (
      view-updates c e p.objects u.q.objects p.channels u.q.channels u.channels
        (λ d. ground (arith, u.leaves.objects d)) (λ fd w. (t.known fd c w).0));
  same_fds = Leaves-fds E manual c e u.i p u.q u.leaves;
}

removes-Refines :
    (E : Kernel) (manual : IsEpoll E) (c : ℕ) (p : EPollPoller E) (t : IsTracked E manual p)
    → p.channels (p.objects c).fd ≡ some c
    → Removed E manual p c t
    → Refines E manual (removes c) p
removes-Refines E manual c p t mine r = record {
  q = r.q;
  returns = r.returns;
  tracked = left E manual c p r.q t mine r.leaves r.channels r.gone;
  views = fun_ext (
      view-removes c p.objects r.q.objects p.channels r.q.channels r.channels
        (λ d. ground (arith, r.leaves.objects d)));
  same_fds = Leaves-fds E manual c (p.objects c).events k_new p r.q r.leaves;
}

pub may-Refines :
    (E : Kernel) (manual : IsEpoll E) (x : Call) (p : EPollPoller E)
    → IsTracked E manual p
    → may (fds E manual p) x (view E manual p) ≡ true
    → Refines E manual x p
unfolding may
may-Refines E manual (updates c e) p t m = elim (Option-cases (p.channels (p.objects c).fd)) [
  | inl w ↦
      updates-Refines E manual c e p t (λ d z. absurd (ground (arith, w, z)))
        (updates_new E manual p c t e w)
  | inr w ↦
      let same : w.0 ≡ c = ground (arith, m, w.1) in
      let mine : p.channels (p.objects c).fd ≡ some c = ground (arith, w.1, same) in
      updates-Refines E manual c e p t (λ d z. ground (arith, mine, z))
        (updates_known E manual p c t e mine)
]
may-Refines E manual (removes c) p t m =
    let mine : p.channels (p.objects c).fd ≡ some c = ground (arith, m) in
    removes-Refines E manual c p t mine (removes_known E manual p c t mine (ground (arith, m)))

call_refused :
    (E : Kernel) (manual : IsEpoll E) (x : Call) (p : EPollPoller E)
    → IsTracked E manual p
    → may (fds E manual p) x (view E manual p) ≡ false
    → call E x p ≡ err undefined
unfolding call may update_channel add_channel change_channel remove_channel
call_refused E manual (updates c e) p t m = elim (Option-cases (p.channels (p.objects c).fd)) [
  | inl w ↦ absurd (ground (arith, m, w))
  | inr w ↦
      let other : w.0 ≢ c = ground (arith, m, w.1) in
      let new : (p.objects c).index ≡ k_new = t.fresh c (ground (arith, w.1, other)) in
      ground (arith, w.1, new)
]
call_refused E manual (removes c) p t m = ground (arith, m)

-- With an epoll instance as its manual describes, and where the indices, `channels_` and its
-- interest list agree: a call that takes no descriptor from another channel, and removes only a
-- registered channel that asks for nothing, returns, has registered, changed or removed just its
-- channel, and leaves the three in agreement. Any other call fails an assertion.
pub call-Refines :
    (E : Kernel) (manual : IsEpoll E) (x : Call) (p : EPollPoller E)
    → IsTracked E manual p
    → (may (fds E manual p) x (view E manual p) ≡ true) × Refines E manual x p
      ⊎ (may (fds E manual p) x (view E manual p) ≡ false) × (call E x p ≡ err undefined)
call-Refines E manual x p t = elim (Bool-cases (may (fds E manual p) x (view E manual p))) [
  | inl m ↦ inl (m, may-Refines E manual x p t m)
  | inr m ↦ inr (m, call_refused E manual x p t m)
]
