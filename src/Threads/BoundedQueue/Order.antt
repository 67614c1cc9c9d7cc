-- ===== src/Threads/BoundedQueue/Order.antt =====
-- Elements leave the queue in the order in which they came, and never too many are in it.
use mathlib.Core.List.{append_assoc}
use pp_d_scache.Base.{
  ℕ, ◌≤◌, ◌≡◌, refl, sym, ap, ◌∙◌, inl, inr, Bool-cases, List, [], ◌∷◌, ◌++◌, length, length-append,
  arith, ok,
}
use pp_d_scache.Threads.BoundedQueue.{
  Queue, init, full, put, take, Attempt, puts, takes, attempt, run,
}

module _ {T : Type 0} where
  -- What was put is what was taken and then what is there, and there is room for what is there.
  pub record IsFair (q : Queue T) : Type 0 where
    pub ordered : q.puts ≡ q.takes ++ q.queue
    pub bounded : length q.queue ≤ q.max_size

  takes-IsFair :
      (q : Queue T)
      → IsFair q
      → (l : List T) → q.queue ≡ l
      → (r : Queue T) × (attempt takes q ≡ ok r) × IsFair r × (r.max_size ≡ q.max_size)
  unfolding attempt take
  takes-IsFair q v [] e = (q, ground (arith, e), v, refl)
  takes-IsFair q v (x ∷ l) e = (
    record q { queue = l; takes = q.takes ++ (x ∷ []) },
    ground (arith, e),
    record {
      ordered = v.ordered ∙ ap (λ m. q.takes ++ m) e ∙ sym (append_assoc q.takes (x ∷ []) l);
      bounded = omega (arith, v.bounded, ap length e);
    },
    refl,
  )

  attempt-IsFair :
      (a : Attempt T) (q : Queue T)
      → IsFair q
      → (r : Queue T) × (attempt a q ≡ ok r) × IsFair r × (r.max_size ≡ q.max_size)
  unfolding attempt put take
  attempt-IsFair (puts x) q v = elim (Bool-cases (full q)) [
    | inl waits ↦ (q, rw waits refl, v, refl)
    | inr room ↦ (
      record q { queue = q.queue ++ (x ∷ []); puts = q.puts ++ (x ∷ []) },
      ground (arith, v.bounded),
      record {
        ordered = ap (λ l. l ++ (x ∷ [])) v.ordered ∙ append_assoc q.takes q.queue (x ∷ []);
        bounded = ground (arith, v.bounded, length-append q.queue (x ∷ []));
      },
      refl,
    )
  ]
  attempt-IsFair takes q v = takes-IsFair q v q.queue refl

  run-IsFair :
      (l : List (Attempt T)) (q : Queue T)
      → IsFair q
      → (r : Queue T) × (run l q ≡ ok r) × IsFair r × (r.max_size ≡ q.max_size)
  unfolding run
  run-IsFair [] q v = (q, refl, v, refl)
  run-IsFair (a ∷ l) q v =
      let (s, e, w, m) = attempt-IsFair a q v in
      let (r, f, u, n) = run-IsFair l s w in (r, rw e f, u, n ∙ m)

  -- Attempts of any threads in any order, on a queue that was empty, pass every assertion. What was
  -- put is then what was taken, in the same order, and after it what is in the queue, which is never
  -- more than `maxSize_`.
  pub run-init-IsFair :
      (n : ℕ) (l : List (Attempt T))
      → (r : Queue T) × (run l (init n) ≡ ok r)
        × (r.puts ≡ r.takes ++ r.queue)
        × (length r.queue ≤ n)
  unfolding init
  run-init-IsFair n l =
      let (r, e, v, m) = run-IsFair l (init n) (record { ordered = refl; bounded = omega arith }) in
      (r, e, v.ordered, omega (arith, v.bounded, m))
