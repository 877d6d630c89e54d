-- ===== src/Server/Db/RwLocks.antt =====
-- The lock functions of server_internals/db.c, with the counters of those that hold an entry.
use rdma_rendezvous_key_valu.Prelude.{
  ℕ, ◌+◌, ◌-◌, Bool, true, false, ◌&&◌, ltb, ◌==◌, if◌then◌else◌,
}
use rdma_rendezvous_key_valu.Prelude.Exec.{Exec, pure, exit, ◌>>=◌, ◌>>◌}
use rdma_rendezvous_key_valu.Platform.{Platform}
use rdma_rendezvous_key_valu.Server.Db.{Entry, DbRest, load, store}

module _ ⦃x : Platform⦄ where
  unfoldable pub db_entry_lock_wr : ℕ → Exec DbRest Bool
  unfolding load store
  db_entry_lock_wr p = do
    entry ← load p
    let (res, lock) = x.rwlock.try_wrlock entry.lock
    if res == 0
        then (do
          store p (record entry { lock = lock; num_writers = entry.num_writers + 1 })
          pure true)
        else (do store p (record entry { lock = lock }); pure false)

  unfoldable pub db_entry_lock_rd : ℕ → Exec DbRest Bool
  unfolding load store
  db_entry_lock_rd p = do
    entry ← load p
    let (res, lock) = x.rwlock.try_rdlock entry.lock
    if res == 0
        then (do
          store p (record entry { lock = lock; num_readers = entry.num_readers + 1 })
          pure true)
        else (do store p (record entry { lock = lock }); pure false)

  -- The counters after an unlock that succeeded.
  abbrev pub unlocked : Entry → Entry
  unlocked e =
      if ltb 0 e.num_readers
      then record e { num_readers = e.num_readers - 1 }
      else record e { num_writers = e.num_writers - 1 }

  unfoldable pub db_entry_unlock : ℕ → Exec DbRest Bool
  unfolding load store
  db_entry_unlock p = do
    entry ← load p
    if entry.num_readers == 0 && entry.num_writers == 0 then exit 1 else do
      let (res, lock) = x.rwlock.unlock entry.lock
      if res == 0
          then (do store p (unlocked (record entry { lock = lock })); pure true)
          else (do store p (record entry { lock = lock }); pure false)
