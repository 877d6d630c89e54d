-- ===== src/Server/Handlers/Puts.antt =====
-- Sequences of SETs whose values come with them, against the map from keys to values.
pub mod Boot
use rdma_rendezvous_key_valu.Prelude.{
  ℕ, suc, ◌+◌, ◌-◌, ◌%◌, ◌*◌, ◌/◌, ◌≤◌, ◌<◌, ◌≡◌, refl, ap, subst, ◌∙◌, sym, true, false, List, [],
  ◌∷◌, Option, some, none, arith, Bytes, advance, length, All, str_eq, str_eq_refl, inl, inr,
  Bool-cases, Option-cases, c_string, c_string-more, c_string-IsCString,
}
use rdma_rendezvous_key_valu.Prelude.Exec.{done, Exec, pure, ◌>>◌}
use rdma_rendezvous_key_valu.Platform.{Platform}
use rdma_rendezvous_key_valu.Common.Message.{ClientHeaders, WrIdInfo}
use rdma_rendezvous_key_valu.Server.Db.{u32, Db, allocated_size_of_entry}
use rdma_rendezvous_key_valu.Server.Db.Items.{db_get, db_insert}
use rdma_rendezvous_key_valu.Server.Db.Insert.{HasRoom}
use rdma_rendezvous_key_valu.Server.Db.Fresh.{Fits}
use rdma_rendezvous_key_valu.Server.Db.Map.{ValueMap, put_value, Holds, Represents}
use rdma_rendezvous_key_valu.Server.Db.Map.Insert.{
  Puts, put_values, Represents-same, Represents-stored, db_insert-Represents,
}
use rdma_rendezvous_key_valu.Server.Requests.Fin.{IsIdle}
use rdma_rendezvous_key_valu.Server.State.{Server}
use rdma_rendezvous_key_valu.Server.Handlers.{
  find_or_insert, fits_request, handle_set_request, read_string,
}
use rdma_rendezvous_key_valu.Server.Handlers.Set.{
  in_db_state, read_string_lem, find_or_insert-found, handle_set_request-eager,
}

-- A SET as it is received: what handle_set_request takes, and the key and the value in its buffer.
pub record SetRequest : Type 0 where
  pub qp : ℕ
  pub headers : ClientHeaders
  pub room : ℕ
  pub buffer : Bytes
  pub info : WrIdInfo
  pub key : List ℕ
  pub value : List ℕ

module _ ⦃x : Platform⦄ where
  -- A SET whose key and value stand in its buffer, with room for each in a preallocated entry, and
  -- whose id is not that of a pending request.
  pub record IsEager (s : Server) (g : SetRequest) : Type 0 where
    pub key_read : c_string g.room g.buffer ≡ some g.key
    pub value_read :
        c_string (g.room - (g.headers.keylen + 1)) (advance g.buffer (g.headers.keylen + 1))
        ≡ some g.value
    pub fits_one : fits_request (g.headers.buflen % u32) g.headers.keylen ≡ true
    pub fits : Fits g.key g.value
    pub idle : IsIdle g.headers.tid s.store.reqs.rest

  abbrev pub Serves : ℕ → Exec Server (Unit {0}) → SetRequest → Server → ValueMap → ℕ → Type 0
  Serves rounds wait g s m left =
      (d : Db) × (f : ℕ → Option ℕ) × (handle_set_request rounds wait g.qp g.headers g.room g.buffer
          g.info s
        ≡ done (false, in_db_state s d))
      × Represents d (put_value g.key g.value m) left f

  module _ (rounds : ℕ) (wait : Exec Server (Unit {0})) (g : SetRequest) (s : Server) (m : ValueMap)
      (left : ℕ) (f : ℕ → Option ℕ) (eager : IsEager s g) where
    found-Serves :
        (old : List ℕ)
        → m g.key ≡ some old
        → Represents s.store.db m left f
        → Serves rounds wait g s m left
    found-Serves old there rep =
        let (p, e, b, at, live, ok) = subst (Holds s.store.db g.key) there (rep.holds g.key) in
        let h : HasRoom s.store.db g.key p e b g.value = record {
          nonempty = eager.fits.nonempty;
          found = at;
          at = live;
          buffer = ok.value_at;
          allocated = ok.len;
          room = omega (arith, ok.allocated, eager.fits.value_room);
          short = eager.fits.value_short;
        } in
        let (r, e', b', run, stored) =
          handle_set_request-eager rounds wait g.qp g.headers g.room g.buffer g.info s g.key p e b
            g.value
            (record { key_read = eager.key_read; found = at; at = live; locked = ok.locked }) h
            eager.fits_one ok.free eager.value_read eager.idle in
        (
          record s.store.db { rest = r },
          f,
          run,
          Represents-stored g.key g.value s.store.db m left f rep r p e e' b' at live ok.key_at
              stored.table stored.others stored.at
              (record {
                key_at = stored.key ∙ ok.key_at;
                value_at = stored.buffer;
                text = c_string-more e'.size b'.len b'.byte g.value stored.text (
                    omega (
                      arith, stored.size, stored.len, ok.len, ok.allocated, eager.fits.value_room,
                    ));
                allocated = stored.allocated ∙ ok.allocated;
                len = omega (arith, stored.allocated, stored.len, ok.len);
                locked = stored.locked;
                free = stored.free;
              }),
        )

  -- A SET for a key that is not there does what it does after an insertion of the empty value.
  handle-inserted :
      (rounds : ℕ) (wait : Exec Server (Unit {0})) (g : SetRequest) (s s1 : Server) (p : ℕ)
      → c_string g.room g.buffer ≡ some g.key
      → find_or_insert (pure (some [])) g.key s ≡ done (p, s1)
      → find_or_insert (pure (some [])) g.key s1 ≡ done (p, s1)
      → handle_set_request rounds wait g.qp g.headers g.room g.buffer g.info s
        ≡ handle_set_request rounds wait g.qp g.headers g.room g.buffer g.info s1
  unfolding handle_set_request
  handle-inserted rounds wait g s s1 p key first second =
      rw
        (
          read_string_lem s g.room g.buffer g.key key,
          read_string_lem s1 g.room g.buffer g.key key,
          first,
          second,
        )
        refl

  find_or_insert-missing :
      (key : List ℕ) (s : Server) (d : Db) (p : ℕ)
      → x.keys.find key s.store.db.rest.internal_db ≡ none
      → db_insert key [] s.store.db ≡ done (tt, d)
      → x.keys.find key d.rest.internal_db ≡ some p
      → find_or_insert (pure (some [])) key s ≡ done (p, in_db_state s d)
  unfolding find_or_insert db_get
  find_or_insert-missing key s d p absent run there = rw (absent, run, there) refl

  put_twice :
      (key value : List ℕ) (m : ValueMap) (j : List ℕ)
      → put_value key value (put_value key [] m) j ≡ put_value key value m j
  put_twice key value m j = ground arith

  module _ (rounds : ℕ) (wait : Exec Server (Unit {0})) (g : SetRequest) (s : Server) (m : ValueMap)
      (left : ℕ) (f : ℕ → Option ℕ) (eager : IsEager s g)
      (rep : Represents s.store.db m (suc left) f) where
    missing-Serves : m g.key ≡ none → Serves rounds wait g s m left
    missing-Serves missing =
        let fits : Fits g.key [] = record {
          nonempty = eager.fits.nonempty;
          key_room = eager.fits.key_room;
          key_short = eager.fits.key_short;
          value_room = omega (arith, eager.fits.value_room);
          value_short = omega (arith, eager.fits.value_short);
        } in
        let absent : x.keys.find g.key s.store.db.rest.internal_db ≡ none =
          subst (Holds s.store.db g.key) missing (rep.holds g.key) in
        let (d1, f', run, rep1) = db_insert-Represents g.key [] s.store.db m left f rep fits tt in
        let m1 = put_value g.key [] m in
        let there : m1 g.key ≡ some [] = rw (str_eq_refl g.key) refl in
        let held : Holds d1 g.key (some []) = subst (Holds d1 g.key) there (rep1.holds g.key) in
        let s1 = in_db_state s d1 in
        let (d, f2, served, ok) =
          found-Serves rounds wait g s1 m1 left f'
            (record {
              key_read = eager.key_read;
              value_read = eager.value_read;
              fits_one = eager.fits_one;
              fits = eager.fits;
              idle = eager.idle;
            })
            [] there rep1 in
        (
          d,
          f2,
          handle-inserted rounds wait g s s1 held.0 eager.key_read
                (find_or_insert-missing g.key s d1 held.0 absent run held.3)
                (find_or_insert-found s1 g.key held.0 (pure (some [])) held.3)
              ∙ served,
          Represents-same d (put_value g.key g.value m1) (put_value g.key g.value m) left left f2
              (put_twice g.key g.value m) (omega arith) ok,
        )

    pub handle_set_request-Serves : Serves rounds wait g s m left
    handle_set_request-Serves = elim (Option-cases (m g.key)) [
      | inl missing ↦ missing-Serves missing
      | inr (old, there) ↦
          found-Serves rounds wait g s m left f eager old there
            (Represents-same s.store.db m m (suc left) left f (λ j. refl) (omega arith) rep)
    ]

  -- The SETs one after another, as server_wait_completions handles them.
  abbrev pub handle_sets : ℕ → Exec Server (Unit {0}) → List SetRequest → Exec Server (Unit {0})
  handle_sets rounds wait [] = pure tt
  handle_sets rounds wait (g ∷ gs) = do
    handle_set_request rounds wait g.qp g.headers g.room g.buffer g.info
    handle_sets rounds wait gs

  abbrev pub puts_of : List SetRequest → Puts
  puts_of [] = []
  puts_of (g ∷ gs) = (g.key, g.value) ∷ puts_of gs
