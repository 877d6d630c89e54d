-- ===== src/Server/Db/Locks.antt =====
-- The try-locks of db.c and their bookkeeping counters.
use rdma_rendezvous_key_valu.Prelude.{
  ℕ, ◌+◌, ◌-◌, ◌≤◌, ◌<◌, ◌≡◌, ◌⊎◌, ◌∙◌, refl, inl, inr, Bool, true, false, some, if◌then◌else◌, ltb,
  update, arith,
}
use native.Mathlib.Decide.{dec_lt}
use rdma_rendezvous_key_valu.Prelude.Exec.{Outcome, done, exited}
use rdma_rendezvous_key_valu.Platform.{Platform}
use rdma_rendezvous_key_valu.Server.Db.{Entry, DbRest}
use rdma_rendezvous_key_valu.Server.Db.RwLocks.{
  db_entry_lock_wr, db_entry_lock_rd, db_entry_unlock, unlocked,
}

module _ ⦃x : Platform⦄ where
  -- The counters agree with the lock, and a writer is alone.
  pub record IsLocked (e : Entry) : Type 0 where
    pub reads : x.rwlock.readers e.lock ≡ e.num_readers
    pub writes : x.rwlock.writers e.lock ≡ e.num_writers
    pub alone : e.num_writers + (if ltb 0 e.num_readers then 1 else 0) ≤ 1

  pub init-IsLocked :
      (e : Entry) → e.lock ≡ x.rwlock.init → e.num_readers ≡ 0 → e.num_writers ≡ 0 → IsLocked e
  init-IsLocked e lock readers writers = record {
    reads = rw (lock, readers) x.rwlock.init_free.0;
    writes = rw (lock, writers) x.rwlock.init_free.1;
    alone = rw (readers, writers) (omega arith);
  }

  abbrev pub with_entry : DbRest → ℕ → Entry → DbRest
  with_entry s p e = record s { entries = update s.entries p (some e) }

  -- What a lock operation does to the entry e at p: all else in the state is as before.
  abbrev pub Becomes :
      DbRest → ℕ → Entry → Bool → (Entry → Type 0) → Outcome (Bool × DbRest) → Type 0
  Becomes s p e b P r = (e' : Entry) × (r ≡ done (b, with_entry s p e')) × IsLocked e' × P e'

  abbrev pub SameData : Entry → Entry → Type 0
  SameData e e' =
      (e'.key ≡ e.key)
      × (e'.value ≡ e.value)
      × (e'.keylen ≡ e.keylen)
      × (e'.size ≡ e.size)
      × (e'.allocated_size ≡ e.allocated_size)
      × (e'.mr ≡ e.mr)

  pub SameData-trans : (a b c : Entry) → SameData a b → SameData b c → SameData a c
  SameData-trans a b c h k = (k.0 ∙ h.0, k.1 ∙ h.1, k.2 ∙ h.2, k.3 ∙ h.3, k.4 ∙ h.4, k.5 ∙ h.5)

  -- On an entry whose counters agree with its lock: trying the write lock succeeds exactly if
  -- nobody holds the entry, and then there is one writer. It changes no data, and on failure no
  -- counter; the counters still agree.
  pub db_entry_lock_wr_lem :
      (p : ℕ) (e : Entry) (s : DbRest)
      → s.entries p ≡ some e
      → IsLocked e
      → ((e.num_readers + e.num_writers ≡ 0)
          × Becomes s p e true
              (λ e'. SameData e e' × (e'.num_writers ≡ 1) × (e'.num_readers ≡ 0))
              (db_entry_lock_wr p s))
        ⊎ ((0 < e.num_readers + e.num_writers)
            × Becomes s p e false (λ e'. e' ≡ e) (db_entry_lock_wr p s))
  unfolding db_entry_lock_wr
  db_entry_lock_wr_lem p e s at v = elim (x.rwlock.try_wrlock_lem e.lock) [
    | inl (won, r, w, r', w') ↦ inl (
      omega (arith, r, w, v.reads, v.writes),
      (
        record e { lock = (x.rwlock.try_wrlock e.lock).1; num_writers = e.num_writers + 1 },
        ground (arith, at, won),
        ground arith,
        ground arith,
      ),
    )
    | inr (lost, same, held) ↦
        inr (omega (arith, held, v.reads, v.writes), (e, ground (arith, at, lost, same), v, refl))
  ]

  -- On an entry whose counters agree with its lock: trying the read lock fails only if there is a
  -- writer or the greatest number of readers. If it succeeds there is no writer and one reader
  -- more. It changes no data, and on failure no counter; the counters still agree.
  pub db_entry_lock_rd_lem :
      (p : ℕ) (e : Entry) (s : DbRest)
      → s.entries p ≡ some e
      → IsLocked e
      → ((e.num_writers ≡ 0)
          × Becomes s p e true
              (λ e'. SameData e e' × (e'.num_writers ≡ 0) × (e'.num_readers ≡ e.num_readers + 1))
              (db_entry_lock_rd p s))
        ⊎ (((0 < e.num_writers) ⊎ (x.rwlock.max_readers ≤ e.num_readers))
            × Becomes s p e false (λ e'. e' ≡ e) (db_entry_lock_rd p s))
  unfolding db_entry_lock_rd
  db_entry_lock_rd_lem p e s at v = elim (x.rwlock.try_rdlock_lem e.lock) [
    | inl (won, w, r', w') ↦ inl (
      omega (arith, w, v.writes),
      (
        record e { lock = (x.rwlock.try_rdlock e.lock).1; num_readers = e.num_readers + 1 },
        ground (arith, at, won),
        ground arith,
        ground arith,
      ),
    )
    | inr (lost, same, held) ↦
        inr (ground (arith, v.reads, v.writes), (e, ground (arith, at, lost, same), v, refl))
  ]

  -- On an entry whose counters agree with its lock: unlocking it when nobody holds it ends the
  -- server with the status 1. Otherwise it succeeds: a reader leaves if there is one, else the
  -- writer does, no data changes, and the counters still agree.
  pub db_entry_unlock_lem :
      (p : ℕ) (e : Entry) (s : DbRest)
      → s.entries p ≡ some e
      → IsLocked e
      → ((e.num_readers + e.num_writers ≡ 0) × (db_entry_unlock p s ≡ exited 1))
        ⊎ ((0 < e.num_readers + e.num_writers)
            × Becomes s p e true
                (λ e'.
                  SameData e e'
                  × (e'.num_readers ≡ e.num_readers - 1)
                  × (e'.num_writers ≡ e.num_writers - (1 - e.num_readers)))
                (db_entry_unlock p s))
  unfolding db_entry_unlock
  db_entry_unlock_lem p e s at v = elim (dec_lt 0 (e.num_readers + e.num_writers)) [
    | no free ↦ inl (omega arith, ground (arith, at))
    | yes held ↦
        let held' : 0 < x.rwlock.readers e.lock + x.rwlock.writers e.lock =
          omega (arith, v.reads, v.writes) in
        let u = x.rwlock.unlock_lem e.lock held' in
        inr (
          held,
          (
            unlocked (record e { lock = (x.rwlock.unlock e.lock).1 }),
            ground (arith, at, u.0),
            ground (arith, u.1, u.2),
            ground arith,
          ),
        )
  ]
