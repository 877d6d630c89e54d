-- ===== src/Server/Handlers/Held.antt =====
-- handle_set_request of server.c on an entry that another request holds: the request is kept to be
-- tried again.
use rdma_rendezvous_key_valu.Prelude.{
  ℕ, ◌+◌, ◌<◌, ◌≡◌, true, Bytes, List, Option, some, elem, false, pos,
}
use rdma_rendezvous_key_valu.Prelude.Exec.{done, Exec}
use rdma_rendezvous_key_valu.Platform.{Platform}
use rdma_rendezvous_key_valu.Common.Message.{ClientHeaders, WrIdInfo}
use rdma_rendezvous_key_valu.Server.Db.{Entry}
use rdma_rendezvous_key_valu.Server.Store.{Request, Reqs}
use rdma_rendezvous_key_valu.Server.Requests.Fifo.{queued}
use rdma_rendezvous_key_valu.Server.Requests.Push.{
  Pushed, Kept, CanPush, push_pending_request-new, push_pending_request-again,
}
use rdma_rendezvous_key_valu.Server.State.{Server}
use rdma_rendezvous_key_valu.Server.Handlers.{handle_set_request}
use rdma_rendezvous_key_valu.Server.Handlers.Set.{Names, handle_set_request-push_pending_request}

module _ ⦃x : Platform⦄ where
  abbrev pub in_reqs_state : Server → Reqs → Server
  in_reqs_state s t = record s { store = record s.store { reqs = t } }

  module _ (rounds : ℕ) (wait : Exec Server (Unit {0})) (qp : ℕ) (headers : ClientHeaders)
      (room : ℕ) (buffer : Bytes) (info : WrIdInfo) (s : Server) (key : List ℕ) (p : ℕ) (e : Entry)
      (names : Names s room buffer key p e) (held : 0 < e.num_readers + e.num_writers) where
    -- A SET for an entry that someone holds, whose id is not that of a pending request, with a
    -- spare preallocated request whose buffer has room for what is copied. The handler returns 1
    -- without waiting. The spare request is then the last of the queue, is found by its id, and
    -- keeps the id, the header, the work request's info and the queue pair; it holds no entry, and
    -- its buffer has the first copied_length bytes of the request. The entries, the table of keys,
    -- the context and the connections are as before, as are all other requests and those that wait
    -- for an RDMA_FIN.
    pub handle_set_request-held :
        (f : ℕ → Option ℕ) (q : ℕ) (r : Request) (b : Bytes)
        → CanPush s.store.reqs headers.tid headers f q r b
        → (t : Reqs) × (r' : Request) × (handle_set_request rounds wait qp headers room buffer info
              s
            ≡ done (true, in_reqs_state s t))
          × Pushed s.store.reqs headers.tid q t
          × (t.rest.requests q ≡ some r')
          × Kept headers.tid info headers buffer qp r'
    handle_set_request-held f q r b can =
        let (t, r', run, pushed, live, kept) =
          push_pending_request-new headers.tid info headers buffer qp s.store.reqs f q r b can in
        (
          t,
          r',
          rw (
            handle_set_request-push_pending_request rounds wait qp headers room buffer info s key p
                e names held,
            run,
          ),
          pushed,
          live,
          kept,
        )

    -- A SET for an entry that someone holds, whose id is that of a pending request that was taken
    -- from the queue to be tried again. The handler returns 1 without waiting, and that request is
    -- the last of the queue and still found by its id. No request has changed, none was taken from the preallocated ones, and the entries, the
    -- table of keys, the context and the connections are as before.
    pub handle_set_request-again :
        (q : ℕ)
        → x.tids.find (pos headers.tid) s.store.reqs.rest.internal_q ≡ some q
        → elem q (queued s.store.reqs.rest) ≡ false
        → (t : Reqs) × (handle_set_request rounds wait qp headers room buffer info s
            ≡ done (true, in_reqs_state s t))
          × Pushed s.store.reqs headers.tid q t
          × (t.rest.requests q ≡ s.store.reqs.rest.requests q)
          × (t.pool ≡ s.store.reqs.pool)
    handle_set_request-again q found unqueued =
        let (t, run, pushed, same, pool) =
          push_pending_request-again headers.tid info headers buffer qp s.store.reqs q found
            unqueued in
        (
          t,
          rw (
            handle_set_request-push_pending_request rounds wait qp headers room buffer info s key p
                e names held,
            run,
          ),
          pushed,
          same,
          pool,
        )
