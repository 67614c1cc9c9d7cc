-- ===== src/Threads/BoundedQueue/Examples.antt =====
-- The theorem on the queue at attempts that wait and attempts that do not.
use pp_d_scache.Base.{ℕ, ◌≤◌, ◌≡◌, [], ◌∷◌, ◌++◌, length, ok}
use pp_d_scache.Threads.BoundedQueue.{Queue, init, puts, takes, run}
use pp_d_scache.Threads.BoundedQueue.Order.{run-init-IsFair}

run-init-IsFair_example :
    (r : Queue ℕ) × (run (takes ∷ puts 1 ∷ puts 2 ∷ takes ∷ puts 3 ∷ []) (init 1) ≡ ok r)
    × (r.puts ≡ r.takes ++ r.queue)
    × (length r.queue ≤ 1)
run-init-IsFair_example = run-init-IsFair 1 (takes ∷ puts 1 ∷ puts 2 ∷ takes ∷ puts 3 ∷ [])
