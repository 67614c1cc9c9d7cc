-- ===== src/Master/Examples.antt =====
-- The theorems on the master and on its lock at concrete inputs.
use pp_d_scache.Base.{
  ℕ, ◌≡◌, refl, false, none, some, [], arith, err, undefined, overflow_error, if◌then◌else◌, ◌==◌,
}
use pp_d_scache.Base.Int.{pos, int_eq}
use pp_d_scache.Master.{PpMaster}
use pp_d_scache.Master.Reset.{reset_slots, has_high_slot, reset_slots_lem}
use pp_d_scache.Master.RwLock.{
  State, Step, idle, reading, init, goes, at_lock_shared, in_lock_shared, calls_lock_shared, waits,
  Reach, here, next,
}
use pp_d_scache.Master.RwLock.Deadlock.{two_writers_deadlock}
use pp_d_scache.Master.RwLock.Entering.{reader_enters}

abbrev master : PpMaster ℕ
master = record {
  running = false;
  db_num = pos 3;
  now_db_num = pos 0;
  id_to_addr = λ id. 0;
  ready_server = [];
  id_to_slots = λ id i. false;
  slots_to_id = [];
}

-- The server 2 has the slot 100.
abbrev high_master : PpMaster ℕ
high_master = record master { id_to_slots = λ id i. if int_eq id (pos 2) then i == 100 else false }

reset_slots_lem_example :
    reset_slots (pos 2) (pos 5) high_master
    ≡ err (if has_high_slot (λ i. i == 100) then overflow_error else undefined)
reset_slots_lem_example = reset_slots_lem (pos 2) (pos 5) high_master

two_writers_deadlock_example :
    (s : State) × Reach init s
    × ((s' : State) → Reach s s' → (s'.writer ≡ some 0) × (s'.mutex ≡ some 1))
two_writers_deadlock_example = two_writers_deadlock 0 1 (λ e. absurd (omega arith))

-- Thread 0 has passed the wait of `lock_shared`.
abbrev one_reader : State
one_reader = record {
  mutex = some 0;
  has_writer = false;
  writer = none;
  pc = goes 0 in_lock_shared (goes 0 at_lock_shared (λ t. idle));
}

one_reader-Reach : Reach init one_reader
one_reader-Reach = next 0 (next 0 here (calls_lock_shared refl refl)) (waits refl refl refl refl)

reader_enters_example :
    (one_reader.mutex ≡ some 0)
    × (one_reader.writer ≡ none)
    × ((s' : State) × Step 0 one_reader s' × (s'.pc 0 ≡ reading) × (s'.mutex ≡ none))
reader_enters_example = reader_enters one_reader one_reader-Reach 0 refl
