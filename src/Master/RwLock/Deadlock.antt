-- ===== src/Master/RwLock/Deadlock.antt =====
-- Two writers that overlap stop the lock for ever: the second one waits inside `lock` with `m` held,
-- and the first one needs `m` to leave.
use pp_d_scache.Base.{ℕ, ◌≡◌, ◌≢◌, refl, ◌⊎◌, inl, true, none, some, arith}
use pp_d_scache.Master.RwLock.{
  idle, at_lock, at_unlock, in_lock, writing, State, init, goes, Step, calls_lock,
  calls_lock_shared, locks_mutex, enters, calls_unlock, leaves, waits, enters_shared, leaves_shared,
  Reach, here, next,
}

-- `a` is in the lock as its writer, and `b` is inside `lock`.
pub record IsStuck (a b : ℕ) (s : State) : Type 0 where
  pub apart : a ≢ b
  pub held : s.mutex ≡ some b
  pub second : s.pc b ≡ in_lock
  pub first : s.writer ≡ some a
  pub inside : (s.pc a ≡ writing) ⊎ (s.pc a ≡ at_unlock)

Step-IsStuck : {a b t : ℕ} {s s' : State} → Step t s s' → IsStuck a b s → IsStuck a b s'
Step-IsStuck {a} {b} (calls_lock p e) k = rw e (record {
  apart = k.apart;
  held = k.held;
  second = ground arith;
  first = k.first;
  inside = ground arith;
})
Step-IsStuck {a} {b} (calls_lock_shared p e) k = rw e (record {
  apart = k.apart;
  held = k.held;
  second = ground arith;
  first = k.first;
  inside = ground arith;
})
Step-IsStuck {a} {b} (locks_mutex p f e) k = absurd (ground arith)
Step-IsStuck {a} {b} (enters p f g e) k = absurd (ground arith)
Step-IsStuck {a} {b} (calls_unlock p e) k = rw e (record {
  apart = k.apart;
  held = k.held;
  second = ground arith;
  first = k.first;
  inside = ground arith;
})
Step-IsStuck {a} {b} (leaves p f e) k = absurd (ground arith)
Step-IsStuck {a} {b} (waits p f g e) k = absurd (ground arith)
Step-IsStuck {a} {b} (enters_shared p f e) k = absurd (ground arith)
Step-IsStuck {a} {b} (leaves_shared p e) k = rw e (record {
  apart = k.apart;
  held = k.held;
  second = ground arith;
  first = k.first;
  inside = ground arith;
})

Reach-IsStuck : {a b : ℕ} {s s' : State} → IsStuck a b s → Reach s s' → IsStuck a b s'
Reach-IsStuck k here = k
Reach-IsStuck k (next t r st) = Step-IsStuck st (Reach-IsStuck k r)

-- From the start, any two threads that both call `lock` can reach a state after which the first one
-- stays in the lock and the second one keeps `m`, whatever all threads do.
pub two_writers_deadlock :
    (a b : ℕ)
    → a ≢ b
    → (s : State) × Reach init s
      × ((s' : State) → Reach s s' → (s'.writer ≡ some a) × (s'.mutex ≡ some b))
two_writers_deadlock a b apart =
    let s1 : State = record init { pc = goes a at_lock (λ _. idle) } in
    let s2 : State = record s1 { mutex = some a; has_writer = true; pc = goes a in_lock s1.pc } in
    let s3 : State = record s2 { mutex = none; writer = some a; pc = goes a writing s2.pc } in
    let s4 : State = record s3 { pc = goes b at_lock s3.pc } in
    let s5 : State = record s4 { mutex = some b; has_writer = true; pc = goes b in_lock s4.pc } in
    let r : Reach init s5 =
      next b
        (next b
          (next a
            (next a (next a here (calls_lock refl refl)) (locks_mutex (ground arith) refl refl))
            (enters (ground arith) refl (λ i. ground arith) refl))
          (calls_lock (ground arith) refl))
        (locks_mutex (ground arith) refl refl) in
    (
      s5,
      r,
      λ s' r'.
          let k =
            Reach-IsStuck {a = a} {b = b}
              (record {
                apart = apart;
                held = refl;
                second = ground arith;
                first = refl;
                inside = inl (ground arith);
              })
              r' in
          (k.first, k.held),
    )
