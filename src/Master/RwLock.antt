-- ===== src/Master/RwLock.antt =====
-- master/RWLock.h: `RWLock`, as the steps of any number of threads. The members are a mutex `m`, a
-- flag, and the `std::shared_mutex` that the class extends, which is given by its contract: a writer
-- enters when nobody is in, a reader when no writer is.
pub mod Deadlock
pub mod Entering
use pp_d_scache.Base.{ℕ, ◌≡◌, ◌≢◌, Bool, true, false, Option, none, some, ◌==◌, if◌then◌else◌}

-- Where a thread stands. `lock_shared` waits for `!has_writer` with `m` free, and then holds `m`.
pub data Pc : Type 0 where
  -- outside the lock, and at the entry of each of its functions but `unlock_shared`
  idle at_lock at_unlock at_lock_shared : Pc
  -- in `shared_mutex::lock()` and `shared_mutex::lock_shared()`, holding `m`
  in_lock in_lock_shared : Pc
  writing reading : Pc

-- `mutex` is the thread that holds `m`, and `writer` the one that is in the shared mutex to write; the
-- threads that are in it to read are those that stand at `reading`.
pub record State : Type 0 where
  pub mutex : Option ℕ
  pub has_writer : Bool
  pub writer : Option ℕ
  pub pc : ℕ → Pc

abbrev pub init : State
init = record { mutex = none; has_writer = false; writer = none; pc = λ _. idle }

abbrev pub goes : ℕ → Pc → (ℕ → Pc) → ℕ → Pc
goes t p pc i = if i == t then p else pc i

-- One step of the thread `t`.
pub data Step (t : ℕ) (s s' : State) : Type 0 where
  calls_lock : s.pc t ≡ idle → s' ≡ record s { pc = goes t at_lock s.pc } → Step t s s'
  calls_lock_shared :
      s.pc t ≡ idle → s' ≡ record s { pc = goes t at_lock_shared s.pc } → Step t s s'
  -- `lock`: takes `m` and sets the flag
  locks_mutex :
      s.pc t ≡ at_lock
      → s.mutex ≡ none
      → s' ≡ record s { mutex = some t; has_writer = true; pc = goes t in_lock s.pc }
      → Step t s s'
  -- `lock`: `shared_mutex::lock()` returns, and then `m` is free
  enters :
      s.pc t ≡ in_lock
      → s.writer ≡ none
      → ((i : ℕ) → s.pc i ≢ reading)
      → s' ≡ record s { mutex = none; writer = some t; pc = goes t writing s.pc }
      → Step t s s'
  calls_unlock : s.pc t ≡ writing → s' ≡ record s { pc = goes t at_unlock s.pc } → Step t s s'
  -- `unlock`: takes `m`, clears the flag, leaves the shared mutex, and frees `m`
  leaves :
      s.pc t ≡ at_unlock
      → s.mutex ≡ none
      → s' ≡ record s { has_writer = false; writer = none; pc = goes t idle s.pc }
      → Step t s s'
  -- `lock_shared`: the wait ends with the flag clear and `m` taken
  waits :
      s.pc t ≡ at_lock_shared
      → s.mutex ≡ none
      → s.has_writer ≡ false
      → s' ≡ record s { mutex = some t; pc = goes t in_lock_shared s.pc }
      → Step t s s'
  -- `lock_shared`: `shared_mutex::lock_shared()` returns, and then `m` is free
  enters_shared :
      s.pc t ≡ in_lock_shared
      → s.writer ≡ none
      → s' ≡ record s { mutex = none; pc = goes t reading s.pc }
      → Step t s s'
  -- `unlock_shared` does not take `m`
  leaves_shared : s.pc t ≡ reading → s' ≡ record s { pc = goes t idle s.pc } → Step t s s'

pub data Reach (s : State) : State → Type 0 where
  here : Reach s s
  next : {u v : State} (t : ℕ) → Reach s u → Step t u v → Reach s v
