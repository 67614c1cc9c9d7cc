-- ===== src/Threads/Pool/Steps.antt =====
-- What each step of a thread keeps: the sleeping threads are matched by notified ones.
use pp_d_scache.Base.{
  ℕ, zero, suc, ◌+◌, ◌≡◌, ◌≤◌, ◌<◌, refl, ap, sym, ◌∙◌, false, List, [], ◌∷◌, ◌++◌, length,
  length-append, ◌==◌, ltb, arith, Bool-cases, inl, inr,
}
use mathlib.Core.List.{append_assoc}
use pp_d_scache.Threads.Pool.{
  ThreadPool, is_full, notify_not_empty, notify_all_not_empty, notify_not_full, put_task, run, take,
  test_running, stop, Event, runs, stops, tests, takes, finishes, goes_on_take, goes_on_run,
  wakes_worker, wakes_caller, happen,
}

-- A pool in the middle of a step: `a` workers and `b` callers have been notified, and `c` workers have
-- left the point where they stood.
pub record IsSlack (a b c : ℕ) (p : ThreadPool) : Type 0 where
  pub small : 0 < p.max_queue_size → length p.queue ≤ p.max_queue_size
  pub served : 0 < p.empty_sleepers → length p.queue ≤ p.empty_woken + a
  pub filled :
      0 < length p.full_sleepers → p.max_queue_size ≤ length p.queue + length p.full_woken + b
  pub limited : 0 < length p.full_sleepers → 0 < p.max_queue_size
  pub stopped : p.running ≡ false → p.empty_sleepers ≡ 0
  pub workers :
      p.at_test + p.at_take + p.busy + p.exited + p.empty_sleepers + p.empty_woken + c ≡ p.threads
  pub order : p.puts ≡ p.takes ++ p.queue

pub notify_not_empty-order :
    (p : ThreadPool)
    → p.puts ≡ p.takes ++ p.queue
    → (notify_not_empty p).puts ≡ (notify_not_empty p).takes ++ (notify_not_empty p).queue
unfolding notify_not_empty
notify_not_empty-order p h = go p.empty_sleepers refl
  where
    go :
        (n : ℕ)
        → p.empty_sleepers ≡ n
        → (notify_not_empty p).puts ≡ (notify_not_empty p).takes ++ (notify_not_empty p).queue
    go zero e = rw e h
    go (suc n) e = rw e h

pub notify_not_full-order :
    (p : ThreadPool)
    → p.puts ≡ p.takes ++ p.queue
    → (notify_not_full p).puts ≡ (notify_not_full p).takes ++ (notify_not_full p).queue
unfolding notify_not_full
notify_not_full-order p h = go p.full_sleepers refl
  where
    go :
        (l : List ℕ)
        → p.full_sleepers ≡ l
        → (notify_not_full p).puts ≡ (notify_not_full p).takes ++ (notify_not_full p).queue
    go [] e = rw e h
    go (x ∷ l) e = rw e h

pub put_task-order :
    (t : ℕ) (p : ThreadPool)
    → p.puts ≡ p.takes ++ p.queue
    → (put_task t p).puts ≡ (put_task t p).takes ++ (put_task t p).queue
unfolding put_task
put_task-order t p h = elim (Bool-cases (is_full p)) [
  | inl full ↦ rw full h
  | inr room ↦ rw room (
      notify_not_empty-order (record p { queue = p.queue ++ (t ∷ []); puts = p.puts ++ (t ∷ []) })
        (ap (λ l. l ++ (t ∷ [])) h ∙ append_assoc p.takes p.queue (t ∷ [])))
]

pub put_task-IsSlack :
    (t b : ℕ) (p : ThreadPool) → b ≤ 1 → IsSlack 0 b 0 p → IsSlack 0 0 0 (put_task t p)
unfolding put_task notify_not_empty
put_task-IsSlack t b p h v = record {
  small = ground (arith, v.small, length-append p.queue (t ∷ []));
  served = ground (arith, v.served, length-append p.queue (t ∷ []));
  filled = ground (arith, v.filled, v.small, length-append p.queue (t ∷ []));
  limited = ground (arith, v.limited);
  stopped = ground (arith, v.stopped);
  workers = ground (arith, v.workers);
  order = put_task-order t p v.order;
}

pub take-order :
    (p : ThreadPool)
    → p.puts ≡ p.takes ++ p.queue
    → (take p).puts ≡ (take p).takes ++ (take p).queue
unfolding take
take-order p h = go p.queue refl
  where
    go : (l : List ℕ) → p.queue ≡ l → (take p).puts ≡ (take p).takes ++ (take p).queue
    go [] e = elim (Bool-cases p.running) [
      | inl on ↦ rw (e, on) (h ∙ ap (λ l. p.takes ++ l) e)
      | inr off ↦ rw (e, off) (h ∙ ap (λ l. p.takes ++ l) e)
    ]
    go (t ∷ l) e =
        let h' : p.puts ≡ (p.takes ++ (t ∷ [])) ++ l =
          h ∙ ap (λ l. p.takes ++ l) e ∙ sym (append_assoc p.takes (t ∷ []) l) in
        elim (Bool-cases (ltb 0 p.max_queue_size)) [
          | inl limited ↦
              rw (e, limited)
                (notify_not_full-order
                  (record p { queue = l; takes = p.takes ++ (t ∷ []); busy = suc p.busy }) h')
          | inr free ↦ rw (e, free) h'
        ]

pub take-IsSlack : (a : ℕ) (p : ThreadPool) → a ≤ 1 → IsSlack a 0 1 p → IsSlack 0 0 0 (take p)
unfolding take notify_not_full
take-IsSlack a p h v = record {
  small = ground (arith, v.small);
  served = ground (arith, v.served);
  filled = ground (arith, v.filled, v.small, v.limited);
  limited = ground (arith, v.limited);
  stopped = ground (arith, v.stopped);
  workers = ground (arith, v.workers);
  order = take-order p v.order;
}

pub run-IsSlack : (t : ℕ) (p : ThreadPool) → IsSlack 0 0 0 p → IsSlack 0 0 0 (run t p)
unfolding run
run-IsSlack t p v = elim (Bool-cases (p.threads == 0)) [
  | inl none' ↦ rw none' v
  | inr some' ↦ rw some' (put_task-IsSlack t 0 p (omega arith) v)
]

pub tests-IsSlack : (p : ThreadPool) → IsSlack 0 0 0 p → IsSlack 0 0 0 (happen tests p)
unfolding happen test_running
tests-IsSlack p v = record {
  small = ground (arith, v.small);
  served = ground (arith, v.served);
  filled = ground (arith, v.filled);
  limited = ground (arith, v.limited);
  stopped = ground (arith, v.stopped);
  workers = ground (arith, v.workers);
  order = go p.at_test refl;
}
  where
    go :
        (n : ℕ)
        → p.at_test ≡ n
        → (happen tests p).puts ≡ (happen tests p).takes ++ (happen tests p).queue
    go zero e = rw e v.order
    go (suc n) e = elim (Bool-cases p.running) [
      | inl on ↦ rw (e, on) v.order
      | inr off ↦ rw (e, off) v.order
    ]

pub stop-IsSlack : (p : ThreadPool) → IsSlack 0 0 0 p → IsSlack 0 0 0 (stop p)
unfolding stop notify_all_not_empty
stop-IsSlack p v = record {
  small = v.small;
  served = λ h. absurd (omega (arith, h));
  filled = v.filled;
  limited = v.limited;
  stopped = λ h. refl;
  workers = omega (arith, v.workers);
  order = v.order;
}

pub notify_not_empty-IsSlack :
    (p : ThreadPool) → IsSlack 0 0 0 p → IsSlack 0 0 0 (notify_not_empty p)
unfolding notify_not_empty
notify_not_empty-IsSlack p v = record {
  small = ground (arith, v.small);
  served = ground (arith, v.served);
  filled = ground (arith, v.filled);
  limited = ground (arith, v.limited);
  stopped = ground (arith, v.stopped);
  workers = ground (arith, v.workers);
  order = notify_not_empty-order p v.order;
}

pub notify_not_full-IsSlack : (p : ThreadPool) → IsSlack 0 0 0 p → IsSlack 0 0 0 (notify_not_full p)
unfolding notify_not_full
notify_not_full-IsSlack p v = record {
  small = ground (arith, v.small);
  served = ground (arith, v.served);
  filled = ground (arith, v.filled);
  limited = ground (arith, v.limited);
  stopped = ground (arith, v.stopped);
  workers = ground (arith, v.workers);
  order = notify_not_full-order p v.order;
}

pub happen-IsSlack : (e : Event) (p : ThreadPool) → IsSlack 0 0 0 p → IsSlack 0 0 0 (happen e p)
unfolding happen
happen-IsSlack (runs t) p v = run-IsSlack t p v
happen-IsSlack stops p v = stop-IsSlack p v
happen-IsSlack tests p v = tests-IsSlack p v
happen-IsSlack takes p v = go p.at_take refl
  where
    go : (n : ℕ) → p.at_take ≡ n → IsSlack 0 0 0 (happen takes p)
    go zero e = rw e (record {
      small = v.small;
      served = v.served;
      filled = v.filled;
      limited = v.limited;
      stopped = v.stopped;
      workers = omega (arith, v.workers, e);
      order = v.order;
    })
    go (suc n) e = rw e (
        take-IsSlack 0 (record p { at_take = n }) (omega arith)
          (record {
            small = v.small;
            served = v.served;
            filled = v.filled;
            limited = v.limited;
            stopped = v.stopped;
            workers = omega (arith, v.workers, e);
            order = v.order;
          }))
happen-IsSlack finishes p v = go p.busy refl
  where
    go : (n : ℕ) → p.busy ≡ n → IsSlack 0 0 0 (happen finishes p)
    go zero e = rw e (record {
      small = v.small;
      served = v.served;
      filled = v.filled;
      limited = v.limited;
      stopped = v.stopped;
      workers = omega (arith, v.workers, e);
      order = v.order;
    })
    go (suc n) e = rw e (record {
      small = v.small;
      served = v.served;
      filled = v.filled;
      limited = v.limited;
      stopped = v.stopped;
      workers = omega (arith, v.workers, e);
      order = v.order;
    })
happen-IsSlack goes_on_take p v = go p.empty_woken refl
  where
    go : (n : ℕ) → p.empty_woken ≡ n → IsSlack 0 0 0 (happen goes_on_take p)
    go zero e = rw e (record {
      small = v.small;
      served = λ h. omega (arith, v.served h, e);
      filled = v.filled;
      limited = v.limited;
      stopped = v.stopped;
      workers = omega (arith, v.workers, e);
      order = v.order;
    })
    go (suc n) e = rw e (
        take-IsSlack 1 (record p { empty_woken = n }) (omega arith)
          (record {
            small = v.small;
            served = λ h. omega (arith, v.served h, e);
            filled = v.filled;
            limited = v.limited;
            stopped = v.stopped;
            workers = omega (arith, v.workers, e);
            order = v.order;
          }))
happen-IsSlack goes_on_run p v = go p.full_woken refl
  where
    go : (l : List ℕ) → p.full_woken ≡ l → IsSlack 0 0 0 (happen goes_on_run p)
    go [] e = rw e (record {
      small = v.small;
      served = v.served;
      filled = λ h. omega (arith, v.filled h, ap length e);
      limited = v.limited;
      stopped = v.stopped;
      workers = v.workers;
      order = v.order;
    })
    go (t ∷ l) e = rw e (
        put_task-IsSlack t 1 (record p { full_woken = l }) (omega arith)
          (record {
            small = v.small;
            served = v.served;
            filled = λ h. omega (arith, v.filled h, ap length e);
            limited = v.limited;
            stopped = v.stopped;
            workers = v.workers;
            order = v.order;
          }))
happen-IsSlack wakes_worker p v = notify_not_empty-IsSlack p v
happen-IsSlack wakes_caller p v = notify_not_full-IsSlack p v
