-- ===== src/Server/Completions.antt =====
-- server_wait_completions and handle_pending_request of server.c. A handler that finds no send
-- buffer waits for completions itself, so the two are one recursion: `depth` bounds how deep it
-- goes, and `stuck` says that a run needs more.
use rdma_rendezvous_key_valu.Prelude.{
  ℕ, zero, suc, ◌+◌, ◌-◌, Bool, true, false, List, [], ◌∷◌, Option, none, some, ltb, if◌then◌else◌,
  take, update,
}
use rdma_rendezvous_key_valu.Prelude.Exec.{
  done, stuck, Exec, pure, exit, gets, modify, deref, ◌>>=◌, ◌>>◌,
}
use rdma_rendezvous_key_valu.Platform.{Platform}
use rdma_rendezvous_key_valu.Common.Constants.{
  max_clients_supported, server_wc_batch, send_wrid, recv_wrid, set_request, get_request,
}
use rdma_rendezvous_key_valu.Common.Message.{server_blank}
use rdma_rendezvous_key_valu.Common.Buffers.{free_send_buffer, release_receive_buffer}
use rdma_rendezvous_key_valu.Server.Store.{Request, in_queues}
use rdma_rendezvous_key_valu.Server.Requests.{
  request_room, load, invalidate_requests_by_qp, pop_pending_request, pending_req_count,
}
use rdma_rendezvous_key_valu.Server.State.{Wc, Ctx, Server, in_store, in_ctx}
use rdma_rendezvous_key_valu.Server.Connections.{remove_connection}
use rdma_rendezvous_key_valu.Server.Handlers.{
  handle_recv_request, handle_set_request, handle_get_request,
}

module _ ⦃x : Platform⦄ where
  -- What the adapter has written into the receive buffers before it reports the completions.
  unfoldable pub deposit : List Wc → Ctx → Ctx
  deposit [] ctx = ctx
  deposit (wc ∷ rest) ctx =
      let more =
        deposit rest (record ctx { in_buf = update ctx.in_buf wc.wr_id.wr_id wc.message }) in
      let same = deposit rest ctx in elim wc.wr_id.wr_type [ recv_wrid ↦ more | _ ↦ same ]

  abbrev poll : List (Option (List Wc)) → Exec Server (Option (List Wc))
  poll [] s = done (some [], s)
  poll (none ∷ rest) s = done (none, record s { completions = rest })
  poll (some wc ∷ rest) s =
      let batch = take server_wc_batch wc in
      done (some batch, record s { completions = rest; ctx = deposit batch s.ctx })

  -- ibv_poll_cq: at most SERVER_WC_BATCH completions, and none once the script is at its end
  unfoldable pub ibv_poll_cq : Exec Server (Option (List Wc))
  unfolding deposit
  ibv_poll_cq s = poll s.completions s

  module _ (rounds : ℕ) (wait : Exec Server (Unit {0})) where
    -- One round of the loop over the completions.
    unfoldable pub handle_completion : Wc → Exec Server (Unit {0})
    handle_completion wc = do
      if wc.success then pure true else remove_connection wc.qp_num
      elim wc.wr_id.wr_type [
        | send_wrid ↦ in_ctx (free_send_buffer wc.wr_id.wr_id)
        | recv_wrid ↦ do
          handle_recv_request rounds wait wc.wr_id wc.qp_num
          in_ctx (release_receive_buffer wc.wr_id.wr_id)
        | _ ↦ exit 1
      ]

    unfoldable pub handle_completions : List Wc → Exec Server (Unit {0})
    unfolding handle_completion
    handle_completions [] = pure tt
    handle_completions (wc ∷ rest) = do handle_completion wc; handle_completions rest

  unfoldable pub server_wait_completions : ℕ → Exec Server (Unit {0})
  unfolding ibv_poll_cq handle_completions
  server_wait_completions zero s = stuck
  server_wait_completions (suc depth) s =
      (do
        polled ← ibv_poll_cq
        elim polled [
          | none ↦ exit 1
          | some wc ↦ handle_completions (suc depth) (server_wait_completions depth) wc
        ])
        s

  -- ibv_query_qp: whether the queue pair is ready to send, `none` if the query fails
  ibv_query_qp : ℕ → Exec Server (Option Bool)
  ibv_query_qp qp s = done (x.ibv_query_qp s.calls qp, record s { calls = suc s.calls })

  drop_if_broken : Option ℕ → Exec Server (Unit {0})
  unfolding ibv_query_qp
  drop_if_broken none = pure tt
  drop_if_broken (some qp) = do
    ready ← ibv_query_qp qp
    elim ready [
      | some false ↦ do in_store (invalidate_requests_by_qp qp); remove_connection qp; pure tt
      | _ ↦ pure tt
    ]

  -- The loop over the connections j, …, j + rounds - 1.
  unfoldable pub check_connections : ℕ → ℕ → Exec Server (Unit {0})
  unfolding drop_if_broken
  check_connections zero j = pure tt
  check_connections (suc rounds) j = do
    qp ← gets λ s. (s.connections j).qp
    drop_if_broken qp
    check_connections rounds (j + 1)

  module _ (depth : ℕ) where
    -- The switch over a request that was popped.
    unfoldable pub retry_request : Request → Exec Server (Unit {0})
    retry_request r = elim r.headers.opcode [
      | set_request ↦ do
        qp ← deref r.qp
        buffer ← deref r.buffer
        handle_set_request depth (server_wait_completions depth) qp r.headers request_room buffer
            r.info
        pure tt
      | get_request ↦ do
        qp ← deref r.qp
        buffer ← deref r.buffer
        handle_get_request depth (server_wait_completions depth) qp r.headers request_room buffer
            r.info
        pure tt
      | _ ↦ pure tt
    ]

    -- The last loop, from the index i with `left` rounds left: at most SERVER_WC_BATCH + 1 requests.
    unfoldable pub retry_requests : ℕ → ℕ → Exec Server (Unit {0})
    unfolding retry_request
    retry_requests zero i = pure tt
    retry_requests (suc left) i = if ltb server_wc_batch i then pure tt else do
      popped ← in_store (in_queues pop_pending_request)
      p ← deref popped
      r ← in_store (in_queues (load p))
      retry_request r
      retry_requests left (i + 1)

    -- `curr_time` is the clock, in seconds.
    unfoldable pub handle_pending_request : ℕ → Exec Server (Unit {0})
    unfolding check_connections retry_requests
    handle_pending_request curr_time = do
      last ← gets λ s. s.last_qp_state_check
      if ltb 1 (curr_time - last)
          then (do
            modify λ s. record s { last_qp_state_check = curr_time }
            check_connections max_clients_supported 0)
          else pure tt
      num_pending_reqs ← in_store (in_queues (gets pending_req_count))
      retry_requests num_pending_reqs 0
