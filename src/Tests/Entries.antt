-- ===== src/Tests/Entries.antt =====
-- The pool of entries, the locks, and an entry whose value is overwritten or gets a new buffer.
use rdma_rendezvous_key_valu.Prelude.{
  ℕ, suc, ◌+◌, ◌<◌, ◌≤◌, ◌≡◌, ◌⊎◌, refl, Bool, true, false, [], ◌∷◌, Option, none, some, arith,
  update, zeroed, List,
}
use rdma_rendezvous_key_valu.Prelude.Exec.{Exec, done, exited}
use rdma_rendezvous_key_valu.Platform.Instance.{test_platform}
use rdma_rendezvous_key_valu.Server.Pool.{Pooled, no_pool, get_empty_buffer}
use rdma_rendezvous_key_valu.Server.Pool.Refill.{IsPool, get_empty_buffer_lem}
use rdma_rendezvous_key_valu.Server.Db.{Buffer, Entry, DbRest, Db, new_db_entry, no_db, load, store}
use rdma_rendezvous_key_valu.Server.Db.Items.{db_reallocate_item}
use rdma_rendezvous_key_valu.Server.Db.RwLocks.{db_entry_lock_wr, db_entry_lock_rd, db_entry_unlock}
use rdma_rendezvous_key_valu.Server.Db.Reach.{start, write_lock, read_lock, Held, Reached-Held}
use rdma_rendezvous_key_valu.Server.Db.Locks.{
  with_entry, IsLocked, Becomes, SameData, db_entry_unlock_lem,
}
use rdma_rendezvous_key_valu.Server.Db.Insert.{HasRoom}
use rdma_rendezvous_key_valu.Server.Db.Entry.{grown, grown_len, db_reallocate_item-grows}

abbrev pub bytes : Buffer
bytes = record { addr = 7; len = 100; byte = zeroed }

-- The entry of the key "k", with the empty value and room for 99 characters.
abbrev pub entry : Entry
entry = record {
  key = some (107 ∷ []);
  value = some bytes;
  keylen = 1;
  size = 1;
  allocated_size = 100;
  mr = none;
  lock = (0, 0);
  num_readers = 0;
  num_writers = 0;
}

abbrev pub read_locked : Entry
read_locked = record entry { lock = (2, 0); num_readers = 2 }

abbrev pub db_with : Entry → DbRest
db_with e = record {
  internal_db = (107 ∷ [], 1) ∷ [];
  entries = update (λ p. none) 1 (some e);
  calls = 9;
}

pub entry-IsLocked : IsLocked entry
entry-IsLocked = record { reads = refl; writes = refl; alone = omega arith }

pub read_locked-IsLocked : IsLocked read_locked
read_locked-IsLocked = record { reads = refl; writes = refl; alone = omega arith }

abbrev pub database : Db
database = record { rest = db_with entry; pool = no_pool }

abbrev one_array : Exec DbRest Bool
one_array s = done (true, record s { calls = suc s.calls })

made_entry : (s : DbRest) → (p : ℕ) × (s' : DbRest) × (new_db_entry s ≡ done (p, s'))
unfolding new_db_entry
made_entry s = (_, _, refl)

get_empty_buffer_lem_example :
    (p : ℕ) × (s' : Pooled DbRest) × (get_empty_buffer 12 one_array new_db_entry no_db
      ≡ done (some p, s'))
    × IsPool 12 s'.pool
    × (9 ≤ s'.pool.current_num)
get_empty_buffer_lem_example =
    get_empty_buffer_lem 12 one_array new_db_entry (λ s. (record s { calls = suc s.calls }, refl))
      made_entry no_db (omega arith) (record { slots_ok = (refl, refl) })

db_entry_unlock_lem_example :
    (◌≡◌ {A = ℕ} 2 0 × (db_entry_unlock 1 (db_with read_locked) ≡ exited 1))
    ⊎ ((0 < 2)
        × Becomes
            (db_with read_locked)
            1
            read_locked
            true
            (λ e'. SameData read_locked e' × (e'.num_readers ≡ 1) × (e'.num_writers ≡ 0))
            (db_entry_unlock 1 (db_with read_locked)))
db_entry_unlock_lem_example =
    db_entry_unlock_lem 1 read_locked (db_with read_locked) refl read_locked-IsLocked

-- The value "abc".
abbrev pub abc : List ℕ
abc = 97 ∷ 98 ∷ 99 ∷ []

pub database-HasRoom : HasRoom database (107 ∷ []) 1 entry bytes abc
database-HasRoom = record {
  nonempty = λ h. cc;
  found = refl;
  at = refl;
  buffer = refl;
  allocated = omega arith;
  room = omega arith;
  short = omega arith;
}

db_reallocate_item-grows_example :
    (true ≡ true
      → ◌≡◌ {A = Option ℕ} (some 110) (some 110)
      → db_reallocate_item (107 ∷ []) 60 database
        ≡ done (
          tt,
          record database {
            rest = record database.rest {
              entries = update database.rest.entries 1 (some (grown database.rest entry 60 110));
              calls = 11;
            };
          },
        ))
    × (true ≡ false → db_reallocate_item (107 ∷ []) 60 database ≡ exited 1)
    × (true ≡ true
        → ◌≡◌ {A = Option ℕ} (some 110) none
        → db_reallocate_item (107 ∷ []) 60 database ≡ exited 1)
    × (240 ≤ grown_len 60)
    × (grown_len 60 < 240 + 4096)
db_reallocate_item-grows_example =
    db_reallocate_item-grows (107 ∷ []) 60 1 110 entry database refl refl (omega arith)
      (omega arith)

-- The entry with the write lock.
abbrev write_locked : Entry
write_locked = record entry { lock = (0, 1); num_writers = 1 }

write_locks :
    db_entry_lock_wr 1 (db_with entry) ≡ done (true, with_entry (db_with entry) 1 write_locked)
unfolding db_entry_lock_wr load store
write_locks = refl

read_fails :
    db_entry_lock_rd 1 (with_entry (db_with entry) 1 write_locked)
    ≡ done (false, with_entry (with_entry (db_with entry) 1 write_locked) 1 write_locked)
unfolding db_entry_lock_rd load store
read_fails = refl

Reached-Held_example :
    Held 1 entry 1 0 (with_entry (with_entry (db_with entry) 1 write_locked) 1 write_locked)
Reached-Held_example =
    Reached-Held 1 entry 1 0 (with_entry (with_entry (db_with entry) 1 write_locked) 1 write_locked)
      entry-IsLocked refl
      (read_lock 1 0 false (with_entry (db_with entry) 1 write_locked)
        (with_entry (with_entry (db_with entry) 1 write_locked) 1 write_locked)
        (write_lock 0 0 true (db_with entry) (with_entry (db_with entry) 1 write_locked)
          (start (db_with entry) refl) write_locks)
        read_fails)
