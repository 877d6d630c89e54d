-- ===== src/Server/Db/Map/Boot.antt =====
-- db_init of db.c and the calls of db_insert that follow it.
use rdma_rendezvous_key_valu.Prelude.{ℕ, ◌+◌, ◌-◌, ◌≤◌, ◌≡◌, subst, true, Option, arith, length}
use rdma_rendezvous_key_valu.Prelude.Exec.{done}
use rdma_rendezvous_key_valu.Platform.{Platform}
use rdma_rendezvous_key_valu.Server.Db.{Db, no_db}
use rdma_rendezvous_key_valu.Server.Db.Items.{db_init}
use rdma_rendezvous_key_valu.Server.Db.Map.{Represents}
use rdma_rendezvous_key_valu.Server.Db.Map.Init.{bogus_map, db_init-Represents}
use rdma_rendezvous_key_valu.Server.Db.Map.Insert.{
  Puts, put_values, insert_all, AllFit, insert_all-Represents,
}

module _ ⦃x : Platform⦄ where
  -- If every allocation succeeds and a page has at least 3 bytes: db_init returns from the state
  -- in which the server starts, and so do at most 990 calls of db_insert after it, for new keys and
  -- for keys that are there, if no key is empty and each key and each value fits a preallocated
  -- entry. The table then stands for the map with the bogus key after the same assignments: a key
  -- is found if and only if it has a value there, its entry has that key, and its buffer holds that
  -- value.
  pub insert_all-db_init :
      (puts : Puts)
      → ((c : ℕ) → x.calloc c ≡ true)
      → 3 ≤ x.page_size
      → AllFit puts
      → length puts ≤ 990
      → (s1 s2 : Db) × (f : ℕ → Option ℕ) × (db_init no_db ≡ done (tt, s1))
        × (insert_all puts s1 ≡ done (tt, s2))
        × Represents s2 (put_values puts bogus_map) (990 - length puts) f
  insert_all-db_init puts alloc page fit few =
      let (s1, f1, start, ok1) = db_init-Represents alloc page in
      let all : 990 ≡ length puts + (990 - length puts) = omega arith in
      let (s2, f2, run, ok2) =
        insert_all-Represents puts s1 bogus_map (990 - length puts) f1 fit
          (subst (λ n. Represents s1 bogus_map n f1) all ok1) in
      (s1, s2, f2, start, run, ok2)
