-- ===== src/Server/Requests/Push.antt =====
-- push_pending_request of server_requests_management.c, for a request with a new id and for one
-- that was taken from the queue to be tried again.
use rdma_rendezvous_key_valu.Prelude.{
  ℕ, ◌≤◌, ◌<◌, ◌≡◌, ◌≢◌, refl, true, false, [], ◌∷◌, ◌++◌, Option, none, some, update, update_twice,
  elem, Bytes, splice, splice-read_bytes, read_bytes, pos, ==_refl, lt→ltb, le→leb, ne→==_false,
}
use rdma_rendezvous_key_valu.Prelude.Exec.{done}
use rdma_rendezvous_key_valu.Platform.{Platform}
use rdma_rendezvous_key_valu.Common.Message.{ClientHeaders, WrIdInfo}
use rdma_rendezvous_key_valu.Server.Pool.Stock.{taken}
use rdma_rendezvous_key_valu.Server.Store.{Request, Reqs}
use rdma_rendezvous_key_valu.Server.Requests.{
  load, store, push_pending_request, push_back_pending_request, get_server_pending_request,
  add_server_pending_request, fill_request, copied_length, request_room,
}
use rdma_rendezvous_key_valu.Server.Requests.Fifo.{queued}
use rdma_rendezvous_key_valu.Server.Requests.Waiting.{IsSpare, request_empty_buffer-IsSpare}

module _ ⦃x : Platform⦄ where
  -- The request at q is now the last of the queue and is found by its id. The requests that wait
  -- for an RDMA_FIN, and all other requests, are as before.
  pub record Pushed (s : Reqs) (tid q : ℕ) (t : Reqs) : Type 0 where
    pub queue : queued t.rest ≡ queued s.rest ++ q ∷ []
    pub found : x.tids.find (pos tid) t.rest.internal_q ≡ some q
    pub waiting : t.rest.waiting_fin_q ≡ s.rest.waiting_fin_q
    pub others : (p : ℕ) → q ≢ p → t.rest.requests p ≡ s.rest.requests p

  -- The request keeps what it needs to be tried again. Of its bytes it has the first
  -- copied_length.
  pub record Kept (tid : ℕ) (info : WrIdInfo) (headers : ClientHeaders) (buffer : Bytes) (qp : ℕ)
      (r : Request) : Type 0 where
    pub is_pending : r.is_pending ≡ true
    pub tid_is : r.tid ≡ pos tid
    pub info_is : r.info ≡ info
    pub headers_are : r.headers ≡ headers
    pub qp_is : r.qp ≡ some qp
    pub qp_num_is : r.qp_num ≡ qp
    pub unlocked : r.entry ≡ none
    pub bytes :
        (b : Bytes) × (r.buffer ≡ some b) × ((i : ℕ) → i < copied_length headers → b i ≡ buffer i)

  -- What a request with a new id takes: a spare preallocated one, whose buffer has room.
  pub record CanPush (s : Reqs) (tid : ℕ) (headers : ClientHeaders) (f : ℕ → Option ℕ) (q : ℕ)
      (r : Request) (b : Bytes) : Type 0 where
    pub unpending : x.tids.find (pos tid) s.rest.internal_q ≡ none
    pub spare : IsSpare s f q r
    pub held : r.buffer ≡ some b
    pub room : copied_length headers ≤ request_room

  module _ (tid : ℕ) (info : WrIdInfo) (headers : ClientHeaders) (buffer : Bytes) (qp : ℕ)
      (s : Reqs) where
    pub push_pending_request-new :
        (f : ℕ → Option ℕ) (q : ℕ) (r : Request) (b : Bytes)
        → CanPush s tid headers f q r b
        → (t : Reqs) × (r' : Request) × (push_pending_request tid info headers buffer qp s
            ≡ done (tt, t))
          × Pushed s tid q t
          × (t.rest.requests q ≡ some r')
          × Kept tid info headers buffer qp r'
    unfolding push_pending_request get_server_pending_request add_server_pending_request
        fill_request load store
    push_pending_request-new f q r b h =
        let r1 : Request = record r { tid = pos tid; entry = none } in
        let copied = splice b 0 (read_bytes buffer (copied_length headers)) in
        let r2 : Request = record r1 {
          is_pending = true;
          tid = pos tid;
          info = info;
          headers = headers;
          qp = some qp;
          qp_num = qp;
          buffer = some copied;
        } in
        let found : x.tids.find (pos tid) (x.tids.add (pos tid) q s.rest.internal_q) ≡ some q =
          rw (x.tids.find-add (pos tid) (pos tid) q s.rest.internal_q h.unpending, ==_refl tid) in
        (
          record (taken s f) {
            rest = record s.rest {
              requests = update s.rest.requests q (some r2);
              internal_q = x.tids.add (pos tid) q s.rest.internal_q;
              sorted_q = x.chains.append q s.rest.sorted_q;
            };
          },
          r2,
          rw (
            h.unpending,
            request_empty_buffer-IsSpare s f q r h.spare,
            h.spare.live,
            found,
            ==_refl q,
            h.held,
            le→leb (copied_length headers) request_room h.room,
            update_twice s.rest.requests q (some (record r1 { buffer = some b })) (some r2),
          ),
          record {
            queue = x.chains.to_list-append q s.rest.sorted_q h.spare.unqueued;
            found = found;
            waiting = refl;
            others = λ p ne. rw (ne→==_false q p ne);
          },
          rw (==_refl q),
          record {
            is_pending = refl;
            tid_is = refl;
            info_is = refl;
            headers_are = refl;
            qp_is = refl;
            qp_num_is = refl;
            unlocked = refl;
            bytes = (
              copied,
              refl,
              λ i below. rw (
                splice-read_bytes b buffer (copied_length headers) i,
                lt→ltb i (copied_length headers) below,
              ),
            );
          },
        )

    -- A request that is pending, but was taken from the queue.
    pub push_pending_request-again :
        (q : ℕ)
        → x.tids.find (pos tid) s.rest.internal_q ≡ some q
        → elem q (queued s.rest) ≡ false
        → (t : Reqs) × (push_pending_request tid info headers buffer qp s ≡ done (tt, t))
          × Pushed s tid q t
          × (t.rest.requests q ≡ s.rest.requests q)
          × (t.pool ≡ s.pool)
    unfolding push_pending_request get_server_pending_request push_back_pending_request
    push_pending_request-again q found unqueued = (
      record s { rest = record s.rest { sorted_q = x.chains.append q s.rest.sorted_q } },
      rw found,
      record {
        queue = x.chains.to_list-append q s.rest.sorted_q unqueued;
        found = found;
        waiting = refl;
        others = λ p ne. refl;
      },
      refl,
      refl,
    )
