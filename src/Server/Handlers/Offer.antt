-- ===== src/Server/Handlers/Offer.antt =====
-- The rendezvous of a GET: the answer of handle_get_request to a request for a value that does not
-- fit a response, and the client's RDMA_FIN.
use rdma_rendezvous_key_valu.Prelude.{
  ℕ, suc, ◌+◌, ◌^◌, ◌<◌, ◌≡◌, ◌≢◌, refl, ap, ◌∙◌, inl, inr, true, false, List, Option, some, update,
  arith, Bytes, ==_refl,
}
use rdma_rendezvous_key_valu.Prelude.Exec.{done, Exec}
use rdma_rendezvous_key_valu.Platform.{Platform}
use rdma_rendezvous_key_valu.Common.Constants.{
  server_header_len, server_response_payload_len, rdma_rkey_get, zero_response,
}
use rdma_rendezvous_key_valu.Common.Message.{ClientHeaders, ServerHeaders, WrIdInfo, no_rkey}
use rdma_rendezvous_key_valu.Common.Buffers.{get_free_send_idx}
use rdma_rendezvous_key_valu.Server.Db.{Mr, Entry, load}
use rdma_rendezvous_key_valu.Server.Db.RwLocks.{db_entry_lock_rd}
use rdma_rendezvous_key_valu.Server.Db.Locks.{
  IsLocked, with_entry, SameData, SameData-trans, db_entry_lock_rd_lem, db_entry_unlock_lem,
}
use rdma_rendezvous_key_valu.Server.Store.{Request}
use rdma_rendezvous_key_valu.Server.Requests.Fin.{IsIdle, remove_idle}
use rdma_rendezvous_key_valu.Server.Requests.Waiting.{IsSpare, mark_rdma_fin_required_lem}
use rdma_rendezvous_key_valu.Server.State.{Ctx, Server}
use rdma_rendezvous_key_valu.Server.Handlers.{
  fits_response, calloc_value, handle_get_request, handle_rdma_fin, write_headers, server_post_send,
  offer_read,
}
use rdma_rendezvous_key_valu.Server.Handlers.Set.{
  Names, entries_of, find_or_insert-found, read_string_lem, in_rest_state,
}
use rdma_rendezvous_key_valu.Server.Handlers.Get.{get_free_send_buffer_lem, load_self}
use rdma_rendezvous_key_valu.Server.Handlers.Released.{
  FinNames, offering, released, handle_rdma_fin-offering,
}

-- A value that does not fit in a response, and does not overflow the test's `int`.
fits_response-false :
    (size : ℕ)
    → server_response_payload_len < server_header_len + size + 1
    → server_header_len + size + 1 < 2 ^ 31
    → fits_response size ≡ false
fits_response-false size h small = ground arith

module _ ⦃x : Platform⦄ where
  -- The answer that names the region of the value.
  abbrev offered : ServerHeaders → Mr → ServerHeaders
  offered headers m = record headers {
    response = rdma_rkey_get;
    rkey_info = record { rkey = m.rkey; raddr = m.addr };
  }

  offer_read_lem :
      (rounds : ℕ) (wait : Exec Server (Unit {0})) (p qp i : ℕ) (headers : ServerHeaders)
      (e : Entry) (m : Mr) (s : Server) (key : List ℕ) (f : ℕ → Option ℕ) (q : ℕ) (r : Request)
      → e.mr ≡ some m
      → e.key ≡ some key
      → s.store.db.rest.entries p ≡ some e
      → x.keys.find key s.store.db.rest.internal_db ≡ some p
      → x.ibv_post_send s.calls qp ≡ 0
      → IsIdle headers.tid s.store.reqs.rest
      → IsSpare s.store.reqs f q r
      → offer_read rounds wait p qp headers i e.size s
        ≡ done (tt, offering s (offered headers m) p qp i f q r)
  unfolding offer_read write_headers server_post_send load
  offer_read_lem rounds wait p qp i headers e m s key f q r mr named at found posted idle spare =
      rw (
        at,
        mr,
        posted,
        ==_refl i,
        remove_idle headers.tid s.store idle,
        at,
        named,
        mark_rdma_fin_required_lem headers.tid q f r p qp key s.store spare idle.unwaited found,
      )

  module _ (rounds : ℕ) (wait : Exec Server (Unit {0})) (qp : ℕ) (headers : ClientHeaders)
      (room : ℕ) (buffer : Bytes) (info : WrIdInfo) (s : Server) (key : List ℕ) (p : ℕ) (e : Entry)
      (m : Mr) (i : ℕ) (c : Ctx) (f : ℕ → Option ℕ) (q : ℕ) (r : Request) where
    abbrev pub offer : ServerHeaders
    offer = record {
      response = rdma_rkey_get;
      tid = headers.tid;
      keylen = headers.keylen;
      buflen = e.size;
      rkey_info = record { rkey = m.rkey; raddr = m.addr };
    }

    -- The server with the entry locked, and the send buffer i in use.
    abbrev before_offer : Entry → Server
    before_offer e1 = record (in_rest_state s (with_entry s.store.db.rest p e1)) {
      ctx = record c { in_use_send = update c.in_use_send i true };
    }

    abbrev pub after_offer : Entry → Server
    after_offer e1 = offering (before_offer e1) offer p qp i f q r

    -- What the branch needs: a registered value that fits no response, in an entry with its own
    -- key, a send buffer, a post that the adapter takes, and a spare request.
    pub record CanOffer : Type 0 where
      pub names : Names s room buffer key p e
      pub named : e.key ≡ some key
      pub mr : e.mr ≡ some m
      pub large : server_response_payload_len < server_header_len + e.size + 1
      pub small : server_header_len + e.size + 1 < 2 ^ 31
      pub free : get_free_send_idx s.ctx ≡ done (some i, c)
      pub posted : x.ibv_post_send s.calls qp ≡ 0
      pub idle : IsIdle headers.tid s.store.reqs.rest
      pub spare : IsSpare s.store.reqs f q r

    offers :
        CanOffer
        → (e1 : Entry)
        → db_entry_lock_rd p s.store.db.rest ≡ done (true, with_entry s.store.db.rest p e1)
        → SameData e e1
        → handle_get_request (suc rounds) wait qp headers room buffer info s
          ≡ done (false, after_offer e1)
    unfolding handle_get_request
    offers h e1 step same =
        let t = in_rest_state s (with_entry s.store.db.rest p e1) in
        let headers' : ServerHeaders = record offer {
          response = zero_response;
          buflen = e1.size;
          rkey_info = no_rkey;
        } in
        rw (
          read_string_lem s room buffer key h.names.key_read,
          find_or_insert-found s key p calloc_value h.names.found,
          step,
          load_self s.store.db.rest p e1,
          get_free_send_buffer_lem rounds wait t i c h.free,
          ap fits_response same.3 ∙ fits_response-false e.size h.large h.small,
          offer_read_lem (suc rounds) wait p qp i headers' e1 m (before_offer e1) key f q r
              (same.5 ∙ h.mr) (same.0 ∙ h.named) (rw (==_refl p)) h.names.found h.posted h.idle
              h.spare,
          same.3,
        )

    -- A GET for an entry without a writer and with fewer than the greatest number of readers,
    -- whose value is registered and does not fit the response, with a send buffer free, a post
    -- that the adapter takes, a spare preallocated request and no leftovers of its id. The handler
    -- returns 0 without waiting, posts one message, the RDMA_RKEY_GET with the request's id, the
    -- size of the value and the key and address of its region, and keeps the entry as one more
    -- reader. The RDMA_FIN of that id and key then returns 0 and posts nothing: the entry's data
    -- and its readers are as before the GET, no writer holds it, all other entries are as before,
    -- and nothing waits for that id any more.
    pub handle_rdma_fin-handle_get_request :
        (fin : ClientHeaders) (text : Bytes)
        → CanOffer
        → e.num_writers ≡ 0
        → e.num_readers < x.rwlock.max_readers
        → fin.tid ≡ headers.tid
        → FinNames fin text key
        → (e1 e2 : Entry) × (s2 : Server) × (handle_get_request
              (suc rounds)
              wait
              qp
              headers
              room
              buffer
              info
              s
            ≡ done (false, after_offer e1))
          × IsLocked e1
          × SameData e e1
          × (e1.num_readers ≡ e.num_readers + 1)
          × (handle_rdma_fin (suc rounds) wait qp fin text (after_offer e1) ≡ done (true, s2))
          × (s2.ctx ≡ (after_offer e1).ctx)
          × (entries_of s2 p ≡ some e2)
          × IsLocked e2
          × SameData e e2
          × (e2.num_readers ≡ e.num_readers)
          × (e2.num_writers ≡ 0)
          × ((k : ℕ) → p ≢ k → entries_of s2 k ≡ entries_of s k)
          × IsIdle headers.tid s2.store.reqs.rest
    handle_rdma_fin-handle_get_request fin text h alone few same_tid names =
        elim (db_entry_lock_rd_lem p e s.store.db.rest h.names.at h.names.locked) [
          | inr (held, _) ↦ absurd (ground arith)
          | inl (_, (e1, step, v1, (same, w1, r1))) ↦
              let t = after_offer e1 in
              let d = t.store.db.rest in
              elim (db_entry_unlock_lem p e1 d (rw (==_refl p)) v1) [
                | inl (unheld, _) ↦ absurd (omega arith)
                | inr (held, (e2, step2, v2, (same2, r2, w2))) ↦
                    let (run, idle) =
                      handle_rdma_fin-offering (suc rounds) wait qp fin text (before_offer e1) offer
                        p i f q r key e2 h.spare h.idle same_tid names h.names.found step2 in
                    (
                      e1,
                      e2,
                      released t headers.tid q p e2,
                      offers h e1 step same,
                      v1,
                      same,
                      r1,
                      run,
                      refl,
                      rw (==_refl p),
                      v2,
                      SameData-trans e e1 e2 same same2,
                      omega (arith, r2, r1),
                      omega (arith, w2, w1, r1),
                      λ k ne. ground (arith, ne),
                      idle,
                    )
              ]
        ]
