-- ===== src/Server/Db/Reach.antt =====
-- Sequences of the lock operations of db.c on one entry.
use rdma_rendezvous_key_valu.Prelude.{
  ℕ, ◌+◌, ◌≡◌, refl, inl, inr, Bool, true, false, some, arith, ==_refl, if◌then◌else◌, ◌∙◌, sym, ap,
  subst, ◌-◌,
}
use rdma_rendezvous_key_valu.Prelude.Exec.{Outcome, done}
use rdma_rendezvous_key_valu.Platform.{Platform}
use rdma_rendezvous_key_valu.Server.Db.{Entry, DbRest}
use rdma_rendezvous_key_valu.Server.Db.RwLocks.{db_entry_lock_wr, db_entry_lock_rd, db_entry_unlock}
use rdma_rendezvous_key_valu.Server.Db.Locks.{
  IsLocked, SameData, Becomes, with_entry, db_entry_lock_wr_lem, db_entry_lock_rd_lem,
  db_entry_unlock_lem, SameData-trans,
}

module _ ⦃x : Platform⦄ where
  -- What is reached from the entry e0 at p, which nobody holds, by lock operations that return,
  -- with the number of successful locks and of unlocks so far.
  pub data Reached (p : ℕ) (e0 : Entry) : (locks unlocks : ℕ) → DbRest → Type 0 where
    start : (s : DbRest) → s.entries p ≡ some e0 → Reached p e0 0 0 s
    write_lock :
        (n u : ℕ) (b : Bool) (s t : DbRest)
        → Reached p e0 n u s
        → db_entry_lock_wr p s ≡ done (b, t)
        → Reached p e0 (n + (if b then 1 else 0)) u t
    read_lock :
        (n u : ℕ) (b : Bool) (s t : DbRest)
        → Reached p e0 n u s
        → db_entry_lock_rd p s ≡ done (b, t)
        → Reached p e0 (n + (if b then 1 else 0)) u t
    unlock :
        (n u : ℕ) (b : Bool) (s t : DbRest)
        → Reached p e0 n u s
        → db_entry_unlock p s ≡ done (b, t)
        → Reached p e0 n (u + 1) t

  -- The entry at p after so many locks and unlocks.
  unfoldable pub Held : ℕ → Entry → ℕ → ℕ → DbRest → Type 0
  Held p e0 n u s =
      (e : Entry) × (s.entries p ≡ some e)
      × IsLocked e
      × SameData e0 e
      × (e.num_readers + e.num_writers + u ≡ n)

  -- One operation, which changes the entry e to one with the same data.
  Held-Becomes :
      (p : ℕ) (e0 e : Entry) (m v : ℕ) (b c : Bool) (s t : DbRest) (P : Entry → Type 0)
      (r : Outcome (Bool × DbRest))
      → SameData e0 e
      → r ≡ done (c, t)
      → ((e' : Entry) → P e' → SameData e e' × (e'.num_readers + e'.num_writers + v ≡ m))
      → Becomes s p e b P r
      → Held p e0 m v t × (b ≡ c)
  unfolding Held
  Held-Becomes p e0 e m v b c s t P r same run keeps (e', step, locked, ok) =
      let state : with_entry s p e' ≡ t = cc in
      let result : b ≡ c = cc in
      let found : (with_entry s p e').entries p ≡ some e' = rw (==_refl p) in
      let (kept, count) = keeps e' ok in
      (
        (
          e',
          sym (ap (λ (d : DbRest). d.entries p) state) ∙ found,
          locked,
          SameData-trans e0 e e' same kept,
          count,
        ),
        result,
      )

  refl_data : (e : Entry) → SameData e e
  refl_data e = (refl, refl, refl, refl, refl, refl)

  -- The same, for an operation that has failed.
  Held-refused :
      (p : ℕ) (e0 e : Entry) (m v : ℕ) (c : Bool) (s t : DbRest) (r : Outcome (Bool × DbRest))
      → SameData e0 e
      → r ≡ done (c, t)
      → e.num_readers + e.num_writers + v ≡ m
      → Becomes s p e false (λ e'. e' ≡ e) r
      → Held p e0 m v t × (false ≡ c)
  Held-refused p e0 e m v c s t r same run count step =
      Held-Becomes p e0 e m v false c s t (λ e'. e' ≡ e) r same run
        (λ e' same'. (rw same' (refl_data e), rw same' count)) step

  -- From an entry that nobody holds and whose counters agree with its lock, after any sequence of
  -- tries to lock it and of unlocks that all return: its counters agree with its lock, a writer is
  -- alone, its data is as at the start, and the number of those that hold it is that of the
  -- successful locks less that of the unlocks.
  pub Reached-Held :
      (p : ℕ) (e0 : Entry) (n u : ℕ) (s : DbRest)
      → IsLocked e0
      → e0.num_readers + e0.num_writers ≡ 0
      → Reached p e0 n u s
      → Held p e0 n u s
  unfolding Held
  Reached-Held p e0 _ _ _ v free (start s at) = (e0, at, v, refl_data e0, omega arith)
  Reached-Held p e0 _ _ _ v free (write_lock n u b s t before run) =
      let (e, at, w, same, count) = Reached-Held p e0 n u s v free before in
      elim (db_entry_lock_wr_lem p e s at w) [
        | inl (none, step) ↦
            let (held, won) =
              Held-Becomes p e0 e (n + 1) u true b s t
                (λ e'. SameData e e' × (e'.num_writers ≡ 1) × (e'.num_readers ≡ 0))
                (db_entry_lock_wr p s) same run
                (λ e' (kept, writer, readers). (kept, omega (arith, count))) step in
            subst (λ b. Held p e0 (n + (if b then 1 else 0)) u t) won held
        | inr (some_held, step) ↦
            let (held, lost) =
              Held-refused p e0 e (n + 0) u b s t (db_entry_lock_wr p s) same run (omega arith)
                step in
            subst (λ b. Held p e0 (n + (if b then 1 else 0)) u t) lost held
      ]
  Reached-Held p e0 _ _ _ v free (read_lock n u b s t before run) =
      let (e, at, w, same, count) = Reached-Held p e0 n u s v free before in
      elim (db_entry_lock_rd_lem p e s at w) [
        | inl (none, step) ↦
            let (held, won) =
              Held-Becomes p e0 e (n + 1) u true b s t
                (λ e'. SameData e e' × (e'.num_writers ≡ 0) × (e'.num_readers ≡ e.num_readers + 1))
                (db_entry_lock_rd p s) same run
                (λ e' (kept, writer, readers). (kept, omega (arith, count, none))) step in
            subst (λ b. Held p e0 (n + (if b then 1 else 0)) u t) won held
        | inr (some_held, step) ↦
            let (held, lost) =
              Held-refused p e0 e (n + 0) u b s t (db_entry_lock_rd p s) same run (omega arith)
                step in
            subst (λ b. Held p e0 (n + (if b then 1 else 0)) u t) lost held
      ]
  Reached-Held p e0 _ _ _ v free (unlock n u b s t before run) =
      let (e, at, w, same, count) = Reached-Held p e0 n u s v free before in
      elim (db_entry_unlock_lem p e s at w) [
        | inl (none, ended) ↦ cc
        | inr (some_held, step) ↦
            let (held, _) =
              Held-Becomes p e0 e n (u + 1) true b s t
                (λ e'.
                  SameData e e'
                  × (e'.num_readers ≡ e.num_readers - 1)
                  × (e'.num_writers ≡ e.num_writers - (1 - e.num_readers)))
                (db_entry_unlock p s) same run
                (λ e' (kept, readers, writers). (kept, ground (arith, w.alone, count, some_held)))
                step in
            held
      ]
