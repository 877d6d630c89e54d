-- ===== src/Server/Handlers/Space.antt =====
-- The rendezvous of a SET: the answer of handle_set_request to a request whose value does not come
-- with it, and the client's RDMA_FIN.
use rdma_rendezvous_key_valu.Prelude.{
  ℕ, suc, [], ◌+◌, ◌%◌, ◌≤◌, ◌<◌, ◌≡◌, ◌≢◌, refl, ap, ◌∙◌, inl, inr, true, false, List, Option,
  some, update, arith, Bytes, ==_refl,
}
use rdma_rendezvous_key_valu.Prelude.Exec.{done, Exec, pure}
use rdma_rendezvous_key_valu.Platform.{Platform}
use rdma_rendezvous_key_valu.Common.Constants.{rdma_rkey_set}
use rdma_rendezvous_key_valu.Common.Message.{ClientHeaders, ServerHeaders, WrIdInfo}
use rdma_rendezvous_key_valu.Common.Buffers.{get_free_send_idx}
use rdma_rendezvous_key_valu.Server.Db.{u32, Buffer, Mr, Entry, DbRest, load}
use rdma_rendezvous_key_valu.Server.Db.Items.{db_reallocate_item}
use rdma_rendezvous_key_valu.Server.Db.Resize.{
  IsRegistered, IsResized, SameLock-IsLocked, resized, db_reallocate_item-IsResized,
}
use rdma_rendezvous_key_valu.Server.Db.RwLocks.{db_entry_lock_wr}
use rdma_rendezvous_key_valu.Server.Db.Locks.{
  IsLocked, with_entry, SameData, db_entry_lock_wr_lem, db_entry_unlock_lem,
}
use rdma_rendezvous_key_valu.Server.Store.{Request}
use rdma_rendezvous_key_valu.Server.Requests.Fin.{IsIdle}
use rdma_rendezvous_key_valu.Server.Requests.Waiting.{IsSpare, mark_rdma_fin_required_lem}
use rdma_rendezvous_key_valu.Server.State.{Ctx, Server}
use rdma_rendezvous_key_valu.Server.Handlers.{
  fits_request, handle_set_request, handle_rdma_fin, write_headers, server_post_send, offer_write,
}
use rdma_rendezvous_key_valu.Server.Handlers.Set.{
  Names, entries_of, find_or_insert-found, read_string_lem, in_rest_state,
}
use rdma_rendezvous_key_valu.Server.Handlers.Get.{get_free_send_buffer_lem}
use rdma_rendezvous_key_valu.Server.Handlers.Released.{
  FinNames, offering, released, handle_rdma_fin-offering,
}

module _ ⦃x : Platform⦄ where
  module _ (rounds : ℕ) (wait : Exec Server (Unit {0})) (qp : ℕ) (headers : ClientHeaders)
      (s : Server) (key : List ℕ) (p i : ℕ) (c : Ctx) (f : ℕ → Option ℕ) (q : ℕ) (r : Request) where
    abbrev pub space : Buffer → Mr → ServerHeaders
    space b m = record {
      response = rdma_rkey_set;
      tid = headers.tid;
      keylen = headers.keylen;
      buflen = headers.buflen % u32;
      rkey_info = record { rkey = m.rkey; raddr = b.addr };
    }

    -- After the answer, with the database d.
    abbrev before_space : DbRest → Server
    before_space d = record (in_rest_state s d) {
      ctx = record c { in_use_send = update c.in_use_send i true };
    }

    abbrev pub after_space : DbRest → Buffer → Mr → Server
    after_space d b m = offering (before_space d) (space b m) p qp i f q r

    offer_write_lem :
        (d : DbRest) (e : Entry) (b : Buffer) (m : Mr)
        → db_reallocate_item key (headers.buflen % u32) s.store.db
          ≡ done (tt, record s.store.db { rest = d })
        → d.entries p ≡ some e
        → d.internal_db ≡ s.store.db.rest.internal_db
        → IsRegistered e b m
        → e.key ≡ some key
        → get_free_send_idx s.ctx ≡ done (some i, c)
        → x.ibv_post_send s.calls qp ≡ 0
        → x.keys.find key s.store.db.rest.internal_db ≡ some p
        → IsIdle headers.tid s.store.reqs.rest
        → IsSpare s.store.reqs f q r
        → offer_write (suc rounds) wait p qp headers key s ≡ done (tt, after_space d b m)
    unfolding offer_write write_headers server_post_send load
    offer_write_lem d e b m run at table v named free posted found idle spare =
        let t = in_rest_state s d in
        rw (
          run,
          at,
          v.region,
          v.buffer,
          get_free_send_buffer_lem rounds wait t i c free,
          posted,
          ==_refl i,
          at,
          named,
          mark_rdma_fin_required_lem headers.tid q f r p qp key t.store spare idle.unwaited
              (ap (x.keys.find key) table ∙ found),
        )

  module _ (rounds : ℕ) (wait : Exec Server (Unit {0})) (qp : ℕ) (headers : ClientHeaders)
      (room : ℕ) (buffer : Bytes) (info : WrIdInfo) (s : Server) (key : List ℕ) (p : ℕ) (e : Entry)
      (b : Buffer) (m : Mr) (rkey i : ℕ) (c : Ctx) (f : ℕ → Option ℕ) (q : ℕ) (r : Request) where
    -- What the branch needs: an entry with its own key and a registered buffer, memory and a
    -- region should the buffer have to grow, a send buffer, a post that the adapter takes, and a
    -- spare request.
    pub record CanAnswer : Type 0 where
      pub names : Names s room buffer key p e
      pub named : e.key ≡ some key
      pub registered : IsRegistered e b m
      pub large : fits_request (headers.buflen % u32) headers.keylen ≡ false
      pub page : 0 < x.page_size
      pub alloc : x.calloc s.store.db.rest.calls ≡ true
      pub reg : x.ibv_reg_mr (suc s.store.db.rest.calls) ≡ some rkey
      pub free : get_free_send_idx s.ctx ≡ done (some i, c)
      pub posted : x.ibv_post_send s.calls qp ≡ 0
      pub idle : IsIdle headers.tid s.store.reqs.rest
      pub spare : IsSpare s.store.reqs f q r

    abbrev locked : Entry → Server
    locked e1 = in_rest_state s (with_entry s.store.db.rest p e1)

    answers :
        CanAnswer
        → (e1 e2 : Entry) (b' : Buffer) (m' : Mr) (calls : ℕ)
        → db_entry_lock_wr p s.store.db.rest ≡ done (true, with_entry s.store.db.rest p e1)
        → SameData e e1
        → db_reallocate_item key (headers.buflen % u32) (locked e1).store.db
          ≡ done (tt, record s.store.db { rest = resized (locked e1).store.db.rest p e2 calls })
        → IsResized e1 e2 b' m' (headers.buflen % u32)
        → handle_set_request (suc rounds) wait qp headers room buffer info s
          ≡ done (
            false,
            after_space rounds wait qp headers
                (locked e1)
                key
                p
                i
                c
                f
                q
                r
                (resized (locked e1).store.db.rest p e2 calls)
                b'
                m',
          )
    unfolding handle_set_request
    answers h e1 e2 b' m' calls step same run ok = rw (
      read_string_lem s room buffer key h.names.key_read,
      find_or_insert-found s key p (pure (some [])) h.names.found,
      step,
      h.large,
      offer_write_lem rounds wait qp headers (locked e1) key p i c f q r
          (resized (locked e1).store.db.rest p e2 calls) e2 b' m' run (rw (==_refl p)) refl
          ok.registered (ok.same.0 ∙ same.0 ∙ h.named) h.free h.posted h.names.found h.idle h.spare,
    )

    -- A SET for an entry that nobody holds and whose buffer is registered, with a value that does
    -- not come with the request; a send buffer is free, the adapter takes the post, a spare
    -- preallocated request and, should the buffer grow, memory and a region are there, and its id
    -- has no leftovers. The handler returns 0 without waiting and posts one message, the
    -- RDMA_RKEY_SET with the request's id and length and the key and address of a region. That
    -- region and the entry's buffer start there and have room for the length, and the entry is held
    -- by one writer and has that size. The RDMA_FIN of that id and key then returns 0 and posts
    -- nothing: the entry has the same data and nobody holds it, all other entries are as before the
    -- SET, and nothing waits for that id any more.
    pub handle_rdma_fin-handle_set_request :
        (fin : ClientHeaders) (text : Bytes)
        → CanAnswer
        → e.num_readers + e.num_writers ≡ 0
        → fin.tid ≡ headers.tid
        → FinNames fin text key
        → (d : DbRest) × (s1 s2 : Server) × (e2 e3 : Entry) × (b' : Buffer) × (m' : Mr)
          × (handle_set_request (suc rounds) wait qp headers room buffer info s ≡ done (false, s1))
          × (s1 ≡ after_space rounds wait qp headers s key p i c f q r d b' m')
          × (entries_of s1 p ≡ some e2)
          × IsRegistered e2 b' m'
          × (headers.buflen % u32 ≤ b'.len)
          × (headers.buflen % u32 ≤ m'.len)
          × (e2.size ≡ headers.buflen % u32)
          × (e2.num_writers ≡ 1)
          × (handle_rdma_fin (suc rounds) wait qp fin text s1 ≡ done (true, s2))
          × (s2.ctx ≡ s1.ctx)
          × (entries_of s2 p ≡ some e3)
          × IsLocked e3
          × SameData e2 e3
          × (e3.num_readers + e3.num_writers ≡ 0)
          × ((k : ℕ) → p ≢ k → entries_of s2 k ≡ entries_of s k)
          × IsIdle headers.tid s2.store.reqs.rest
    handle_rdma_fin-handle_set_request fin text h alone same_tid names =
        elim (db_entry_lock_wr_lem p e s.store.db.rest h.names.at h.names.locked) [
          | inr (held, _) ↦ absurd (omega arith)
          | inl (_, (e1, step, v1, (same, w1, r1))) ↦
              let v : IsRegistered e1 b m = record {
                buffer = same.1 ∙ h.registered.buffer;
                region = same.5 ∙ h.registered.region;
                start = h.registered.start;
                in_buffer = omega (arith, same.4, h.registered.in_buffer);
                in_region = omega (arith, same.4, h.registered.in_region);
              } in
              let (calls, e2, b', m', run, ok) =
                db_reallocate_item-IsResized key (headers.buflen % u32) p rkey e1 b m
                  (locked e1).store.db h.names.found (rw (==_refl p)) v (omega arith) h.page h.alloc
                  h.reg in
              let d = resized (locked e1).store.db.rest p e2 calls in
              let t = after_space rounds wait qp headers s key p i c f q r d b' m' in
              let v2 = SameLock-IsLocked e1 e2 ok.same v1 in
              elim (db_entry_unlock_lem p e2 d (rw (==_refl p)) v2) [
                | inl (unheld, _) ↦ absurd (omega (arith, ok.same.3))
                | inr (held, (e3, step3, v3, (same3, r3, w3))) ↦
                    let (run3, idle) =
                      handle_rdma_fin-offering (suc rounds) wait qp fin text
                        (before_space rounds wait qp headers s key p i c f q r d)
                        (space rounds wait qp headers s key p i c f q r b' m') p i f q r key e3
                        h.spare h.idle same_tid names h.names.found step3 in
                    (
                      d,
                      t,
                      released t headers.tid q p e3,
                      e2,
                      e3,
                      b',
                      m',
                      answers h e1 e2 b' m' calls step same run ok,
                      refl,
                      rw (==_refl p),
                      ok.registered,
                      omega (arith, ok.room, ok.registered.in_buffer),
                      omega (arith, ok.room, ok.registered.in_region),
                      ok.size,
                      ok.same.3 ∙ w1,
                      run3,
                      refl,
                      rw (==_refl p),
                      v3,
                      same3,
                      omega (arith, r3, w3, ok.same.2, ok.same.3),
                      λ k ne. ground (arith, ne),
                      idle,
                    )
              ]
        ]
