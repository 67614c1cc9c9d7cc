-- ===== src/Master/RwLock/Entering.antt =====
-- What the mutex and the flag do for a reader: one that has passed its wait finds no writer in the
-- shared mutex.
use pp_d_scache.Base.{ℕ, ◌≡◌, refl, true, none, some, inl, inr, Option-cases, arith}
use pp_d_scache.Master.RwLock.{
  in_lock, in_lock_shared, reading, State, init, goes, Step, calls_lock, calls_lock_shared,
  locks_mutex, enters, calls_unlock, leaves, waits, enters_shared, leaves_shared, Reach, here, next,
}

-- A thread inside the shared mutex's functions holds `m`, and the flag is set while a writer is there
-- or is on the way.
record Inv (s : State) : Type 0 where
  locker : (t : ℕ) → s.pc t ≡ in_lock → s.mutex ≡ some t
  sharer : (t : ℕ) → s.pc t ≡ in_lock_shared → s.mutex ≡ some t
  announced : (t : ℕ) → s.pc t ≡ in_lock → s.has_writer ≡ true
  flagged : (t : ℕ) → s.writer ≡ some t → s.has_writer ≡ true
  free : (t : ℕ) → s.pc t ≡ in_lock_shared → s.writer ≡ none

Step-Inv : {t : ℕ} {s s' : State} → Step t s s' → Inv s → Inv s'
Step-Inv {t} (calls_lock p e) k = rw e (record {
  locker = λ i h. ground (arith, k.locker i);
  sharer = λ i h. ground (arith, k.sharer i);
  announced = λ i h. ground (arith, k.announced i, k.announced t, k.locker i);
  flagged = λ i h. ground (arith, k.flagged i, k.announced t, k.locker i);
  free = λ i h. ground (arith, k.free i, k.sharer i, k.locker t, k.flagged);
})
Step-Inv {t} (calls_lock_shared p e) k = rw e (record {
  locker = λ i h. ground (arith, k.locker i);
  sharer = λ i h. ground (arith, k.sharer i);
  announced = λ i h. ground (arith, k.announced i, k.announced t, k.locker i);
  flagged = λ i h. ground (arith, k.flagged i, k.announced t, k.locker i);
  free = λ i h. ground (arith, k.free i, k.sharer i, k.locker t, k.flagged);
})
Step-Inv {t} (locks_mutex p f e) k = rw e (record {
  locker = λ i h. ground (arith, k.locker i);
  sharer = λ i h. ground (arith, k.sharer i);
  announced = λ i h. ground (arith, k.announced i, k.announced t, k.locker i);
  flagged = λ i h. ground (arith, k.flagged i, k.announced t, k.locker i);
  free = λ i h. ground (arith, k.free i, k.sharer i, k.locker t, k.flagged);
})
Step-Inv {t} (enters p f g e) k = rw e (record {
  locker = λ i h. ground (arith, k.locker i, k.locker t);
  sharer = λ i h. ground (arith, k.sharer i, k.locker t);
  announced = λ i h. ground (arith, k.announced i, k.announced t, k.locker i);
  flagged = λ i h. ground (arith, k.flagged i, k.announced t, k.locker i);
  free = λ i h. ground (arith, k.free i, k.sharer i, k.locker t, k.flagged);
})
Step-Inv {t} (calls_unlock p e) k = rw e (record {
  locker = λ i h. ground (arith, k.locker i);
  sharer = λ i h. ground (arith, k.sharer i);
  announced = λ i h. ground (arith, k.announced i, k.announced t, k.locker i);
  flagged = λ i h. ground (arith, k.flagged i, k.announced t, k.locker i);
  free = λ i h. ground (arith, k.free i, k.sharer i, k.locker t, k.flagged);
})
Step-Inv {t} (leaves p f e) k = rw e (record {
  locker = λ i h. ground (arith, k.locker i);
  sharer = λ i h. ground (arith, k.sharer i);
  announced = λ i h. ground (arith, k.announced i, k.announced t, k.locker i);
  flagged = λ i h. ground (arith, k.flagged i);
  free = λ i h. ground (arith, k.free i, k.sharer i, k.locker t, k.flagged);
})
Step-Inv {t} {s} (waits p f g e) k = rw e (record {
  locker = λ i h. ground (arith, k.locker i);
  sharer = λ i h. ground (arith, k.sharer i);
  announced = λ i h. ground (arith, k.announced i, k.announced t, k.locker i);
  flagged = λ i h. ground (arith, k.flagged i, k.announced t, k.locker i);
  free = λ i h. elim (Option-cases s.writer) [
    | inl nobody ↦ nobody
    | inr (u, there) ↦ absurd (ground (arith, g, k.flagged u there))
  ];
})
Step-Inv {t} (enters_shared p f e) k = rw e (record {
  locker = λ i h. ground (arith, k.locker i, k.sharer t);
  sharer = λ i h. ground (arith, k.sharer i, k.sharer t);
  announced = λ i h. ground (arith, k.announced i, k.announced t, k.locker i);
  flagged = λ i h. ground (arith, k.flagged i, k.announced t, k.locker i);
  free = λ i h. ground (arith, k.free i, k.sharer i, k.locker t, k.flagged);
})
Step-Inv {t} (leaves_shared p e) k = rw e (record {
  locker = λ i h. ground (arith, k.locker i);
  sharer = λ i h. ground (arith, k.sharer i);
  announced = λ i h. ground (arith, k.announced i, k.announced t, k.locker i);
  flagged = λ i h. ground (arith, k.flagged i, k.announced t, k.locker i);
  free = λ i h. ground (arith, k.free i, k.sharer i, k.locker t, k.flagged);
})

Reach-Inv : {s s' : State} → Inv s → Reach s s' → Inv s'
Reach-Inv k here = k
Reach-Inv k (next t r st) = Step-Inv st (Reach-Inv k r)

init-Inv : Inv init
init-Inv = record {
  locker = λ t h. ground arith;
  sharer = λ t h. ground arith;
  announced = λ t h. ground arith;
  flagged = λ t h. ground arith;
  free = λ t h. ground arith;
}

-- In every state that the threads reach, a reader whose wait for the flag is over holds `m`, finds no
-- writer in the shared mutex, and so can enter it in its next step, which frees `m`.
pub reader_enters :
    (s : State)
    → Reach init s
    → (t : ℕ) → s.pc t ≡ in_lock_shared
    → (s.mutex ≡ some t)
      × (s.writer ≡ none)
      × ((s' : State) × Step t s s' × (s'.pc t ≡ reading) × (s'.mutex ≡ none))
reader_enters s r t h =
    let k = Reach-Inv init-Inv r in
    (
      k.sharer t h,
      k.free t h,
      (
        record s { mutex = none; pc = goes t reading s.pc },
        enters_shared h (k.free t h) refl,
        ground arith,
        refl,
      ),
    )
