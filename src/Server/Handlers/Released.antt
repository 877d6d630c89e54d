-- ===== src/Server/Handlers/Released.antt =====
-- The RDMA_FIN of a client, in handle_recv_request of server.c.
use rdma_rendezvous_key_valu.Prelude.{
  ℕ, suc, ◌<◌, ◌≡◌, refl, true, List, ◌∷◌, Option, some, update, Bytes, c_string, pos, lt→ltb,
  ==_refl,
}
use rdma_rendezvous_key_valu.Prelude.Exec.{done, Exec}
use rdma_rendezvous_key_valu.Platform.{Platform}
use rdma_rendezvous_key_valu.Common.Constants.{
  client_request_payload_len, send_wrid, server_header_len,
}
use rdma_rendezvous_key_valu.Common.Message.{Message, ClientHeaders, ServerHeaders}
use rdma_rendezvous_key_valu.Common.Context.{send_wr}
use rdma_rendezvous_key_valu.Server.Db.{Entry}
use rdma_rendezvous_key_valu.Server.Db.Items.{db_get}
use rdma_rendezvous_key_valu.Server.Db.RwLocks.{db_entry_unlock}
use rdma_rendezvous_key_valu.Server.Db.Locks.{with_entry}
use rdma_rendezvous_key_valu.Server.Store.{Request}
use rdma_rendezvous_key_valu.Server.Requests.Fin.{
  IsIdle, fin_received, fin_received_lem, remove_idle,
}
use rdma_rendezvous_key_valu.Server.Requests.Waiting.{
  IsSpare, waiting, registered, find-waiting, fin_received-IsIdle,
}
use rdma_rendezvous_key_valu.Server.State.{Server}
use rdma_rendezvous_key_valu.Server.Handlers.{handle_rdma_fin}
use rdma_rendezvous_key_valu.Server.Handlers.Set.{read_string_lem}

module _ ⦃x : Platform⦄ where
  -- The key of an RDMA_FIN, which the server terminates itself.
  pub record FinNames (headers : ClientHeaders) (buffer : Bytes) (key : List ℕ) : Type 0 where
    pub inside : headers.keylen < client_request_payload_len
    pub key_read : c_string client_request_payload_len (update buffer headers.keylen 0) ≡ some key

  -- The request q waits for the RDMA_FIN of that id, to unlock the entry p.
  pub record IsWaiting (s : Server) (tid q : ℕ) (r : Request) (p : ℕ) : Type 0 where
    pub found : x.tids.find (pos tid) s.store.reqs.rest.waiting_fin_q ≡ some q
    pub live : s.store.reqs.rest.requests q ≡ some r
    pub entry : r.entry ≡ some p

  abbrev pub released : Server → ℕ → ℕ → ℕ → Entry → Server
  released s tid q p e = record s {
    store = fin_received tid q (with_entry s.store.db.rest p e) s.store;
  }

  pub handle_rdma_fin_lem :
      (rounds : ℕ) (wait : Exec Server (Unit {0})) (qp : ℕ) (headers : ClientHeaders)
      (buffer : Bytes) (s : Server) (key : List ℕ) (tid q : ℕ) (r : Request) (p : ℕ) (e' : Entry)
      → headers.tid ≡ tid
      → FinNames headers buffer key
      → x.keys.find key s.store.db.rest.internal_db ≡ some p
      → IsWaiting s tid q r p
      → db_entry_unlock p s.store.db.rest ≡ done (true, with_entry s.store.db.rest p e')
      → IsIdle tid (released s tid q p e').store.reqs.rest
      → handle_rdma_fin rounds wait qp headers buffer s ≡ done (true, released s tid q p e')
  unfolding handle_rdma_fin db_get
  handle_rdma_fin_lem rounds wait qp headers buffer s key tid q r p e' same n found w step idle =
      rw (
        lt→ltb headers.keylen client_request_payload_len n.inside,
        read_string_lem s client_request_payload_len (update buffer headers.keylen 0) key
            n.key_read,
        found,
        same,
        fin_received_lem tid q p r e' s.store w.found w.live w.entry step,
        remove_idle tid (released s tid q p e').store idle,
      )

  -- After the answer h from the send buffer i, with the request q waiting for the RDMA_FIN.
  abbrev pub offering : Server → ServerHeaders → ℕ → ℕ → ℕ → (ℕ → Option ℕ) → ℕ → Request → Server
  offering s h p qp i f q r =
      let m : Message ServerHeaders = record (s.ctx.out_buf i) { headers = h } in
      record s {
        store = waiting h.tid q f r p qp s.store;
        ctx = record s.ctx {
          out_buf = update s.ctx.out_buf i m;
          posted =
              send_wr qp server_header_len (record { wr_id = i; wr_type = send_wrid }) m
              ∷ s.ctx.posted;
        };
        calls = suc s.calls;
      }

  -- The RDMA_FIN that such an answer waits for.
  pub handle_rdma_fin-offering :
      (rounds : ℕ) (wait : Exec Server (Unit {0})) (qp : ℕ) (fin : ClientHeaders) (text : Bytes)
      (s : Server) (h : ServerHeaders) (p i : ℕ) (f : ℕ → Option ℕ) (q : ℕ) (r : Request)
      (key : List ℕ) (e' : Entry)
      → IsSpare s.store.reqs f q r
      → IsIdle h.tid s.store.reqs.rest
      → fin.tid ≡ h.tid
      → FinNames fin text key
      → x.keys.find key s.store.db.rest.internal_db ≡ some p
      → db_entry_unlock p s.store.db.rest ≡ done (true, with_entry s.store.db.rest p e')
      → let t = released (offering s h p qp i f q r) h.tid q p e' in
        (handle_rdma_fin rounds wait qp fin text (offering s h p qp i f q r) ≡ done (true, t))
        × IsIdle h.tid t.store.reqs.rest
  handle_rdma_fin-offering rounds wait qp fin text s h p i f q r key e' spare idle same n found
        step =
      let after =
        fin_received-IsIdle h.tid q f r p qp (with_entry s.store.db.rest p e') s.store spare idle in
      let w : IsWaiting (offering s h p qp i f q r) h.tid q (registered h.tid q f r p qp) p =
        record {
          found = find-waiting h.tid q f r p qp s.store idle.unwaited;
          live = rw (==_refl q);
          entry = refl;
        } in
      (
        handle_rdma_fin_lem rounds wait qp fin text (offering s h p qp i f q r) key h.tid q
            (registered h.tid q f r p qp) p e' same n found w step after,
        after,
      )
