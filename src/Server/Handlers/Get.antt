-- ===== src/Server/Handlers/Get.antt =====
-- handle_get_request on a key that is there and whose value fits the response.
use rdma_rendezvous_key_valu.Prelude.{
  ℕ, suc, ◌+◌, ◌%◌, ◌≤◌, ◌<◌, ◌≡◌, ◌≢◌, ap, ◌∙◌, inl, inr, true, false, List, ◌∷◌, some, update,
  arith, Bytes, splice, splice-read_bytes, read_bytes, ==_refl, le→leb,
}
use rdma_rendezvous_key_valu.Prelude.Exec.{done, Exec}
use rdma_rendezvous_key_valu.Platform.{Platform}
use rdma_rendezvous_key_valu.Common.Constants.{
  server_header_len, server_response_payload_len, send_wrid, zero_response, get_response,
}
use rdma_rendezvous_key_valu.Common.Message.{
  Message, ClientHeaders, ServerHeaders, WrIdInfo, no_rkey,
}
use rdma_rendezvous_key_valu.Common.Context.{send_wr}
use rdma_rendezvous_key_valu.Common.Buffers.{get_free_send_idx, acquire_send_buffer}
use rdma_rendezvous_key_valu.Server.Db.{u32, Buffer, Entry, DbRest, load}
use rdma_rendezvous_key_valu.Server.Db.RwLocks.{db_entry_lock_rd, db_entry_unlock}
use rdma_rendezvous_key_valu.Server.Db.Locks.{
  IsLocked, with_entry, SameData, SameData-trans, db_entry_lock_rd_lem, db_entry_unlock_lem,
}
use rdma_rendezvous_key_valu.Server.Requests.Fin.{IsIdle, remove_idle}
use rdma_rendezvous_key_valu.Server.State.{Ctx, Server}
use rdma_rendezvous_key_valu.Server.Handlers.{
  fits_response, calloc_value, handle_get_request, get_free_send_buffer, write_headers,
  write_payload, server_post_send, send_value,
}
use rdma_rendezvous_key_valu.Server.Handlers.Set.{
  Names, entries_of, find_or_insert-found, read_string_lem, in_rest_state,
}

-- A value that fits in a response also does by the test on its `int` size.
fits_response_lem :
    (size : ℕ)
    → server_header_len + size + 1 ≤ server_response_payload_len
    → fits_response size ≡ true
fits_response_lem size h = ground arith

whole_size :
    (size : ℕ)
    → server_header_len + size + 1 ≤ server_response_payload_len
    → (size + 1) % u32 ≡ size + 1
whole_size size h = omega (arith, h)

whole_message :
    (size : ℕ)
    → server_header_len + size + 1 ≤ server_response_payload_len
    → (server_header_len + size + 1) % u32 ≡ server_header_len + size + 1
whole_message size h = omega (arith, h)

module _ ⦃x : Platform⦄ where
  -- The context after a send of the response from the buffer i, in which the free buffer was found.
  abbrev sent : Ctx → ℕ → ServerHeaders → Buffer → ℕ → Ctx
  sent c i headers b n = record c {
    in_use_send = update c.in_use_send i true;
    out_buf = update c.out_buf i (record {
      headers = headers;
      buffer = splice (c.out_buf i).buffer 0 (read_bytes b.byte n);
    });
  }

  pub get_free_send_buffer_lem :
      (rounds : ℕ) (wait : Exec Server (Unit {0})) (s : Server) (i : ℕ) (c : Ctx)
      → get_free_send_idx s.ctx ≡ done (some i, c)
      → get_free_send_buffer (suc rounds) wait s
        ≡ done (i, record s { ctx = record c { in_use_send = update c.in_use_send i true } })
  unfolding get_free_send_buffer acquire_send_buffer
  get_free_send_buffer_lem rounds wait s i c h = rw h

  pub load_self :
      (r : DbRest) (p : ℕ) (e : Entry) → load p (with_entry r p e) ≡ done (e, with_entry r p e)
  unfolding load
  load_self r p e = rw (==_refl p)

  -- The headers and the value into the send buffer i, and the post.
  send_value_lem :
      (rounds : ℕ) (wait : Exec Server (Unit {0})) (p qp i : ℕ) (headers : ServerHeaders)
      (e : Entry) (b : Buffer) (s : Server) (r : DbRest)
      → e.value ≡ some b
      → e.size + 1 ≤ b.len
      → server_header_len + e.size + 1 ≤ server_response_payload_len
      → x.ibv_post_send s.calls qp ≡ 0
      → db_entry_unlock p s.store.db.rest ≡ done (true, r)
      → IsIdle headers.tid s.store.reqs.rest
      → let h : ServerHeaders = record headers { response = get_response } in
        let c = s.ctx in
        let m : Message ServerHeaders = record {
          headers = h;
          buffer = splice (c.out_buf i).buffer 0 (read_bytes b.byte (e.size + 1));
        } in
        send_value rounds wait p qp headers i e s
        ≡ done (
          tt,
          record (in_rest_state s r) {
            ctx = record c {
              out_buf = update (update c.out_buf i (record (c.out_buf i) { headers = h })) i m;
              posted =
                  send_wr qp
                    (server_header_len + e.size + 1)
                    (record { wr_id = i; wr_type = send_wrid })
                    m
                  ∷ c.posted;
            };
            calls = suc s.calls;
          },
        )
  unfolding send_value write_headers write_payload server_post_send
  send_value_lem rounds wait p qp i headers e b s r value len fit posted unlock idle = rw (
    value,
    whole_size e.size fit,
    whole_message e.size fit,
    le→leb (e.size + 1) b.len len,
    le→leb (e.size + 1) server_response_payload_len (omega arith),
    posted,
    ==_refl i,
    unlock,
    remove_idle headers.tid (record s.store { db = record s.store.db { rest = r } }) idle,
  )

  module _ (rounds : ℕ) (wait : Exec Server (Unit {0})) (qp : ℕ) (headers : ClientHeaders)
      (room : ℕ) (buffer : Bytes) (info : WrIdInfo) (s : Server) (key : List ℕ) (p : ℕ) (e : Entry)
      (b : Buffer) (i : ℕ) (c : Ctx) where
    abbrev response : ServerHeaders
    response = record {
      response = get_response;
      tid = headers.tid;
      keylen = headers.keylen;
      buflen = e.size;
      rkey_info = no_rkey;
    }

    abbrev pub replied : Message ServerHeaders
    replied = record {
      headers = response;
      buffer = splice (c.out_buf i).buffer 0 (read_bytes b.byte (e.size + 1));
    }

    abbrev pub after_reply : DbRest → Server
    after_reply r = record (in_rest_state s r) {
      ctx = record c {
        in_use_send = update c.in_use_send i true;
        out_buf =
            update (update c.out_buf i (record (c.out_buf i) { headers = response })) i replied;
        posted =
            send_wr qp (server_header_len + e.size + 1) (record { wr_id = i; wr_type = send_wrid })
              replied
            ∷ c.posted;
      };
      calls = suc s.calls;
    }

    replies :
        Names s room buffer key p e
        → (e1 e2 : Entry)
        → db_entry_lock_rd p s.store.db.rest ≡ done (true, with_entry s.store.db.rest p e1)
        → SameData e e1
        → e.value ≡ some b
        → e.size + 1 ≤ b.len
        → server_header_len + e.size + 1 ≤ server_response_payload_len
        → get_free_send_idx s.ctx ≡ done (some i, c)
        → x.ibv_post_send s.calls qp ≡ 0
        → IsIdle headers.tid s.store.reqs.rest
        → db_entry_unlock p (with_entry s.store.db.rest p e1)
          ≡ done (true, with_entry (with_entry s.store.db.rest p e1) p e2)
        → handle_get_request (suc rounds) wait qp headers room buffer info s
          ≡ done (false, after_reply (with_entry (with_entry s.store.db.rest p e1) p e2))
    unfolding handle_get_request
    replies n e1 e2 step same value len fit free posted idle step2 =
        let t = in_rest_state s (with_entry s.store.db.rest p e1) in
        let u : Server = record t {
          ctx = record c { in_use_send = update c.in_use_send i true };
        } in
        let headers' : ServerHeaders = record response {
          response = zero_response;
          buflen = e1.size;
        } in
        rw (
          read_string_lem s room buffer key n.key_read,
          find_or_insert-found s key p calloc_value n.found,
          step,
          load_self s.store.db.rest p e1,
          get_free_send_buffer_lem rounds wait t i c free,
          ap fits_response same.3 ∙ fits_response_lem e.size fit,
          send_value_lem (suc rounds) wait p qp i headers' e1 b u
              (with_entry (with_entry s.store.db.rest p e1) p e2) (same.1 ∙ value)
              (omega (arith, same.3, len)) (omega (arith, same.3, fit)) posted step2 idle,
          same.3,
        )

    -- A GET for an entry without a writer and with fewer than the greatest number of readers,
    -- whose value fits the response, with a send buffer free, a post that the adapter takes, and
    -- without leftovers of its id: the handler returns 0 without waiting. It posts one message,
    -- from the buffer that was free: a GET_RESPONSE with the request's id, the size of the value
    -- and its bytes up to the one behind them. The entry's data and its readers are as before, and
    -- so is every other entry.
    pub handle_get_request-reply :
        Names s room buffer key p e
        → e.value ≡ some b
        → e.size + 1 ≤ b.len
        → server_header_len + e.size + 1 ≤ server_response_payload_len
        → e.num_writers ≡ 0
        → e.num_readers < x.rwlock.max_readers
        → get_free_send_idx s.ctx ≡ done (some i, c)
        → x.ibv_post_send s.calls qp ≡ 0
        → IsIdle headers.tid s.store.reqs.rest
        → (r : DbRest) × (e' : Entry) × (handle_get_request
              (suc rounds)
              wait
              qp
              headers
              room
              buffer
              info
              s
            ≡ done (false, after_reply r))
          × (r.entries p ≡ some e')
          × IsLocked e'
          × SameData e e'
          × (e'.num_readers ≡ e.num_readers)
          × (e'.num_writers ≡ 0)
          × ((q : ℕ) → p ≢ q → r.entries q ≡ entries_of s q)
          × ((k : ℕ) → k < e.size + 1 → replied.buffer k ≡ b.byte k)
    unfolding handle_get_request
    handle_get_request-reply n value len fit alone few free posted idle =
        elim (db_entry_lock_rd_lem p e s.store.db.rest n.at n.locked) [
          | inr (held, _) ↦ absurd (ground arith)
          | inl (_, (e1, step, v1, (same, w1, r1))) ↦
              elim (db_entry_unlock_lem p e1 (with_entry s.store.db.rest p e1) (rw (==_refl p))
                v1) [
                  | inl (unheld, _) ↦ absurd (omega arith)
                  | inr (held, (e2, step2, v2, (same2, r2, w2))) ↦ (
                    with_entry (with_entry s.store.db.rest p e1) p e2,
                    e2,
                    replies n e1 e2 step same value len fit free posted idle step2,
                    rw (==_refl p),
                    v2,
                    SameData-trans e e1 e2 same same2,
                    omega (arith, r2, r1),
                    omega (arith, w2, w1, r1),
                    λ q ne. ground arith,
                    λ k h.
                        rw (splice-read_bytes (c.out_buf i).buffer b.byte (e.size + 1) k)
                          (ground arith),
                  )
                ]
        ]
