-- ===== src/Server/Handlers/Set.antt =====
-- handle_set_request of server.c on a key that is there: the eager branch, and the branch for an
-- entry that another request holds.
use rdma_rendezvous_key_valu.Prelude.{
  ℕ, suc, ◌+◌, ◌-◌, ◌%◌, ◌<◌, ◌≡◌, ◌≢◌, refl, ap, ◌∙◌, fun_ext, inl, inr, true, false, List, [],
  ◌∷◌, ◌++◌, Option, some, arith, length, Bytes, splice, advance, c_string, ==_refl,
  c_string-IsCString,
}
use rdma_rendezvous_key_valu.Prelude.Exec.{done, Exec, pure, ◌>>◌}
use rdma_rendezvous_key_valu.Platform.{Platform}
use rdma_rendezvous_key_valu.Common.Message.{ClientHeaders, WrIdInfo}
use rdma_rendezvous_key_valu.Server.Db.{u32, Buffer, Entry, DbRest, Db}
use rdma_rendezvous_key_valu.Server.Db.Items.{db_get}
use rdma_rendezvous_key_valu.Server.Db.Locks.{
  IsLocked, with_entry, SameData, db_entry_lock_wr_lem, db_entry_unlock_lem,
}
use rdma_rendezvous_key_valu.Server.Db.Insert.{
  HasRoom, with_value, inserted, db_insert-found, inserted_value,
}
use rdma_rendezvous_key_valu.Server.Store.{in_reqs}
use rdma_rendezvous_key_valu.Server.Requests.{push_pending_request}
use rdma_rendezvous_key_valu.Server.Requests.Fin.{IsIdle, remove_idle}
use rdma_rendezvous_key_valu.Server.State.{Server, in_store}
use rdma_rendezvous_key_valu.Server.Handlers.{
  read_string, find_or_insert, fits_request, handle_set_request, store_value,
}

module _ ⦃x : Platform⦄ where
  abbrev pub entries_of : Server → ℕ → Option Entry
  entries_of s = s.store.db.rest.entries

  -- That the request's key names the entry e at p.
  pub record Names (s : Server) (room : ℕ) (buffer : Bytes) (key : List ℕ) (p : ℕ) (e : Entry)
      : Type 0 where
    pub key_read : c_string room buffer ≡ some key
    pub found : x.keys.find key s.store.db.rest.internal_db ≡ some p
    pub at : entries_of s p ≡ some e
    pub locked : IsLocked e

  pub find_or_insert-found :
      (s : Server) (key : List ℕ) (p : ℕ) (new_value : Exec Db (Option (List ℕ)))
      → x.keys.find key s.store.db.rest.internal_db ≡ some p
      → find_or_insert new_value key s ≡ done (p, s)
  unfolding find_or_insert db_get
  find_or_insert-found s key p new_value h = rw h

  pub read_string_lem :
      (s : Server) (room : ℕ) (buffer : Bytes) (key : List ℕ)
      → c_string room buffer ≡ some key
      → read_string room buffer s ≡ done (key, s)
  unfolding read_string
  read_string_lem s room buffer key h = rw h

  abbrev pub in_db_state : Server → Db → Server
  in_db_state s d = record s { store = record s.store { db = d } }

  abbrev pub in_rest_state : Server → DbRest → Server
  in_rest_state s r = in_db_state s (record s.store.db { rest = r })

  store_same : (r : DbRest) (p : ℕ) (e : Entry) → r.entries p ≡ some e → with_entry r p e ≡ r
  store_same r p e at =
      ap (λ (f : ℕ → Option Entry). record r { entries = f })
        (fun_ext λ q. ground (arith, at, ap r.entries))

  -- What the eager branch leaves in the database, with the entry unlocked again.
  pub record Stored (s : Server) (p : ℕ) (e : Entry) (b : Buffer) (value : List ℕ) (r : DbRest)
      (e' : Entry) (b' : Buffer) : Type 0 where
    pub at : r.entries p ≡ some e'
    pub locked : IsLocked e'
    pub free : e'.num_readers + e'.num_writers ≡ 0
    pub key : e'.key ≡ e.key
    pub allocated : e'.allocated_size ≡ e.allocated_size
    pub size : e'.size ≡ suc (length value)
    pub buffer : e'.value ≡ some b'
    pub len : b'.len ≡ b.len
    pub text : c_string e'.size b'.byte ≡ some value
    pub others : (q : ℕ) → p ≢ q → r.entries q ≡ entries_of s q
    pub table : r.internal_db ≡ s.store.db.rest.internal_db

  store_value_lem :
      (rounds : ℕ) (wait : Exec Server (Unit {0})) (headers : ClientHeaders) (room : ℕ)
      (buffer : Bytes) (s : Server) (key : List ℕ) (p : ℕ) (e : Entry) (b : Buffer) (value : List ℕ)
      → HasRoom s.store.db key p e b value
      → IsLocked e
      → e.num_writers ≡ 1
      → e.num_readers ≡ 0
      → c_string (room - (headers.keylen + 1)) (advance buffer (headers.keylen + 1)) ≡ some value
      → IsIdle headers.tid s.store.reqs.rest
      → (r : DbRest) × (e' : Entry) × (b' : Buffer) × (store_value rounds wait p headers key room
            buffer s
          ≡ done (tt, in_rest_state s r))
        × Stored s p e b value r e' b'
  unfolding store_value
  store_value_lem rounds wait headers room buffer s key p e b value h v w rd at_value idle =
      let d = inserted key value s.store.db p e b in
      let e2 : Entry = with_value e b value in
      let at2 : d.rest.entries p ≡ some e2 = rw (==_refl p) in
      let v2 : IsLocked e2 = record { reads = v.reads; writes = v.writes; alone = v.alone } in
      elim (db_entry_unlock_lem p e2 d.rest at2 v2) [
        | inl (free, _) ↦ absurd (omega arith)
        | inr (held, (e3, step, v3, (same, rd3, wr3))) ↦ (
          with_entry d.rest p e3,
          e3,
          record b { byte = splice b.byte 0 (value ++ 0 ∷ []) },
          rw (
            read_string_lem s (room - (headers.keylen + 1)) (advance buffer (headers.keylen + 1))
                value at_value,
            db_insert-found key value s.store.db p e b h,
            step,
            remove_idle headers.tid
                (record s.store { db = record d { rest = with_entry d.rest p e3 } }) idle,
          ),
          record {
            at = rw (==_refl p);
            locked = v3;
            free = omega (arith, rd3, wr3);
            key = same.0;
            allocated = same.4;
            size = same.3;
            buffer = same.1;
            len = refl;
            text = rw same.3 (
                inserted_value key value s.store.db p e b (suc (length value))
                  (c_string-IsCString (room - (headers.keylen + 1))
                    (advance buffer (headers.keylen + 1)) value at_value)
                  (omega arith));
            others = λ q ne. ground arith;
            table = refl;
          },
        )
      ]

  module _ (rounds : ℕ) (wait : Exec Server (Unit {0})) (qp : ℕ) (headers : ClientHeaders)
      (room : ℕ) (buffer : Bytes) (info : WrIdInfo) (s : Server) (key : List ℕ) (p : ℕ)
      (e : Entry) where
    -- A SET for an entry that someone holds does nothing but push the request.
    pub handle_set_request-push_pending_request :
        Names s room buffer key p e
        → 0 < e.num_readers + e.num_writers
        → handle_set_request rounds wait qp headers room buffer info s
          ≡ (in_store (in_reqs (push_pending_request headers.tid info headers buffer qp))
                >> pure true)
              s
    unfolding handle_set_request
    handle_set_request-push_pending_request n held =
        elim (db_entry_lock_wr_lem p e s.store.db.rest n.at n.locked) [
          | inl (free, _) ↦ absurd (omega arith)
          | inr (_, (e', step, v, same)) ↦ rw (
            read_string_lem s room buffer key n.key_read,
            find_or_insert-found s key p (pure (some [])) n.found,
            step,
            same,
            store_same s.store.db.rest p e n.at,
          )
        ]

    relocked :
        (b : Buffer) (value : List ℕ) (e1 : Entry)
        → HasRoom s.store.db key p e b value
        → SameData e e1
        → HasRoom (record s.store.db { rest = with_entry s.store.db.rest p e1 }) key p e1 b value
    relocked b value e1 h same = record {
      nonempty = h.nonempty;
      found = h.found;
      at = rw (==_refl p);
      buffer = same.1 ∙ h.buffer;
      allocated = omega (arith, same.4, h.allocated);
      room = rw same.4 h.room;
      short = h.short;
    }

    -- A SET whose value fits the request, for an entry that nobody holds and whose buffer has
    -- room, and without leftovers of its id: the handler returns 0 without waiting. The entry then
    -- holds the value, which is read back from its buffer, and its size counts the terminator;
    -- nobody holds the entry. Every other entry, the table, the requests, the context and the
    -- connections are as before.
    pub handle_set_request-eager :
        (b : Buffer) (value : List ℕ)
        → Names s room buffer key p e
        → HasRoom s.store.db key p e b value
        → fits_request (headers.buflen % u32) headers.keylen ≡ true
        → e.num_readers + e.num_writers ≡ 0
        → c_string (room - (headers.keylen + 1)) (advance buffer (headers.keylen + 1)) ≡ some value
        → IsIdle headers.tid s.store.reqs.rest
        → (r : DbRest) × (e' : Entry) × (b' : Buffer) × (handle_set_request rounds wait qp headers
              room buffer info s
            ≡ done (false, in_rest_state s r))
          × Stored s p e b value r e' b'
    unfolding handle_set_request
    handle_set_request-eager b value n h fit free at_value idle =
        elim (db_entry_lock_wr_lem p e s.store.db.rest n.at n.locked) [
          | inr (held, _) ↦ absurd (omega arith)
          | inl (_, (e1, step, v1, (same, w1, r1))) ↦
              let t = in_rest_state s (with_entry s.store.db.rest p e1) in
              let (r, e', b', run, ok) =
                store_value_lem rounds wait headers room buffer t key p e1 b value
                  (relocked b value e1 h same) v1 w1 r1 at_value idle in
              (
                r,
                e',
                b',
                rw (
                  read_string_lem s room buffer key n.key_read,
                  find_or_insert-found s key p (pure (some [])) n.found,
                  step,
                  fit,
                  run,
                ),
                record {
                  at = ok.at;
                  locked = ok.locked;
                  free = ok.free;
                  key = ok.key ∙ same.0;
                  allocated = ok.allocated ∙ same.4;
                  size = ok.size;
                  buffer = ok.buffer;
                  len = ok.len;
                  text = ok.text;
                  others = λ q ne. ground (arith, ok.others q ne);
                  table = ok.table;
                },
              )
        ]
