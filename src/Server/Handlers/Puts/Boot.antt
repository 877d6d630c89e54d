-- ===== src/Server/Handlers/Puts/Boot.antt =====
-- SETs one after another, and db_init of db.c before them.
use rdma_rendezvous_key_valu.Prelude.{
  ℕ, ◌+◌, ◌-◌, ◌≤◌, ◌≡◌, suc, refl, subst, true, [], ◌∷◌, Option, arith, List, All, length,
}
use rdma_rendezvous_key_valu.Prelude.Exec.{done, Exec}
use rdma_rendezvous_key_valu.Platform.{Platform}
use rdma_rendezvous_key_valu.Server.Db.{Db, no_db}
use rdma_rendezvous_key_valu.Server.Db.Items.{db_init}
use rdma_rendezvous_key_valu.Server.Db.Map.{ValueMap, put_value, Represents}
use rdma_rendezvous_key_valu.Server.Db.Map.Insert.{put_values}
use rdma_rendezvous_key_valu.Server.Db.Map.Init.{bogus_map, db_init-Represents}
use rdma_rendezvous_key_valu.Server.State.{Server}
use rdma_rendezvous_key_valu.Server.Handlers.Set.{in_db_state}
use rdma_rendezvous_key_valu.Server.Handlers.Puts.{
  SetRequest, IsEager, handle_sets, puts_of, handle_set_request-Serves,
}

module _ ⦃x : Platform⦄ where
  -- What makes a SET eager does not depend on the database.
  in_db_state-IsEager :
      (s : Server) (d : Db) (gs : List SetRequest)
      → All (IsEager s) gs
      → All (IsEager (in_db_state s d)) gs
  in_db_state-IsEager s d [] h = tt
  in_db_state-IsEager s d (g ∷ gs) (one, rest) = (
    record {
      key_read = one.key_read;
      value_read = one.value_read;
      fits_one = one.fits_one;
      fits = one.fits;
      idle = one.idle;
    },
    in_db_state-IsEager s d gs rest,
  )

  -- On a server whose table stands for a map, nobody holding an entry of it, with at least as many
  -- preallocated entries left as there are requests and at least nine more: SETs for keys that are
  -- there and for new keys, whose keys are not empty, whose keys and values fit the request and a
  -- preallocated entry, and without leftovers of their ids, are all handled without waiting. The
  -- table then stands for the map after the same assignments, nobody holds an entry of it, and
  -- nothing but the database has changed.
  handle_sets-Represents :
      (rounds : ℕ) (wait : Exec Server (Unit {0})) (gs : List SetRequest) (s : Server)
      (m : ValueMap) (left : ℕ) (f : ℕ → Option ℕ)
      → All (IsEager s) gs
      → Represents s.store.db m (length gs + left) f
      → (d : Db) × (f' : ℕ → Option ℕ) × (handle_sets rounds wait gs s ≡ done (tt, in_db_state s d))
        × Represents d (put_values (puts_of gs) m) left f'
  handle_sets-Represents rounds wait [] s m left f eager rep =
      let zero-left : 0 + left ≡ left = omega arith in
      (s.store.db, f, refl, subst (λ n. Represents s.store.db m n f) zero-left rep)
  handle_sets-Represents rounds wait (g ∷ gs) s m left f (one, rest) rep =
      let suc-left : suc (length gs) + left ≡ suc (length gs + left) = omega arith in
      let rep' = subst (λ n. Represents s.store.db m n f) suc-left rep in
      let (d1, f1, run, ok) =
        handle_set_request-Serves rounds wait g s m (length gs + left) f one rep' in
      let (d, f', run', ok') =
        handle_sets-Represents rounds wait gs (in_db_state s d1) (put_value g.key g.value m) left f1
          (in_db_state-IsEager s d1 gs rest) ok in
      (d, f', rw run run', ok')

  -- If every allocation succeeds and a page has at least 3 bytes: db_init returns from the state
  -- in which the server starts, and a server with that database handles at most 990 SETs one after
  -- another without waiting, for new keys and for keys that are there, if no key is empty, each key
  -- and each value fits the request and a preallocated entry, and there are no leftovers of their
  -- ids. The table then stands for the map with the bogus key after the same assignments: a key is
  -- found if and only if it has a value there, its entry has that key, its buffer holds that value,
  -- and nobody holds the entry. Nothing but the database has changed.
  pub handle_sets-db_init :
      (rounds : ℕ) (wait : Exec Server (Unit {0})) (gs : List SetRequest) (s : Server)
      → ((c : ℕ) → x.calloc c ≡ true)
      → 3 ≤ x.page_size
      → All (IsEager s) gs
      → length gs ≤ 990
      → (d1 d2 : Db) × (f : ℕ → Option ℕ) × (db_init no_db ≡ done (tt, d1))
        × (handle_sets rounds wait gs (in_db_state s d1) ≡ done (tt, in_db_state s d2))
        × Represents d2 (put_values (puts_of gs) bogus_map) (990 - length gs) f
  handle_sets-db_init rounds wait gs s alloc page eager few =
      let (d1, f1, start, ok1) = db_init-Represents alloc page in
      let all : 990 ≡ length gs + (990 - length gs) = omega arith in
      let (d2, f2, run, ok2) =
        handle_sets-Represents rounds wait gs (in_db_state s d1) bogus_map (990 - length gs) f1
          (in_db_state-IsEager s d1 gs eager) (subst (λ n. Represents d1 bogus_map n f1) all ok1) in
      (d1, d2, f2, start, run, ok2)
