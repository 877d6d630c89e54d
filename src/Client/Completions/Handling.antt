-- ===== src/Client/Completions/Handling.antt =====
-- How client.c handles responses and completions.
use rdma_rendezvous_key_valu.Prelude.{
  ℕ, ◌+◌, ◌%◌, Bool, true, false, List, [], ◌∷◌, Option, none, some, ltb, leb, if◌then◌else◌,
  splice, read_bytes, pos, dec_int, add_int, sub_rounds, int_leb, int_ltb,
}
use rdma_rendezvous_key_valu.Prelude.Exec.{
  Exec, pure, exit, gets, modify, deref, assert, ◌>>=◌, ◌>>◌,
}
use rdma_rendezvous_key_valu.Platform.{Platform}
use rdma_rendezvous_key_valu.Common.Constants.{
  server_response_payload_len, recv_wrid, send_wrid, rdma_read_wrid, rdma_write_wrid,
  rdma_get_request, get_response, rdma_rkey_set, rdma_rkey_get, server_shutdown,
}
use rdma_rendezvous_key_valu.Common.Message.{Message, ServerHeaders, server_blank, client_blank}
use rdma_rendezvous_key_valu.Common.Buffers.{release_receive_buffer, free_send_buffer}
use rdma_rendezvous_key_valu.Server.Db.{Buffer}
use rdma_rendezvous_key_valu.Client.Requests.{
  Queue, load, store, get_client_pending_request, remove_client_pending_request,
}
use rdma_rendezvous_key_valu.Client.State.{Wc, Client, in_ctx, in_queue}
use rdma_rendezvous_key_valu.Client.Completions.{
  client_post_recv_buffers, client_post_rdma_read, client_post_rdma_write, client_send_rdma_fin,
  calloc_buffer, addr_of, ibv_reg_mr,
}

module _ ⦃x : Platform⦄ where
  unfoldable pub client_handle_recv_rdma_rkey_get : ServerHeaders → Exec Client (Unit {0})
  unfolding calloc_buffer ibv_reg_mr
  client_handle_recv_rdma_rkey_get headers = do
    found ← in_queue (get_client_pending_request headers.tid)
    in_buf ← in_queue (calloc_buffer (headers.buflen + 1))
    p ← deref found
    mr ← in_queue do
      made ← ibv_reg_mr (addr_of in_buf) (headers.buflen + 1)
      pending_req ← load p
      store p (record pending_req { in_buf = in_buf; mr = made; opcode = rdma_get_request })
      deref made
    client_post_rdma_read headers.buflen mr.addr headers.rkey_info headers.tid
    pure tt

  unfoldable pub client_handle_recv_rdma_rkey_set : ServerHeaders → Exec Client (Unit {0})
  client_handle_recv_rdma_rkey_set headers = do
    found ← in_queue (get_client_pending_request headers.tid)
    p ← deref found
    pending_req ← in_queue (load p)
    mr ← deref pending_req.mr
    client_post_rdma_write pending_req.out_size mr.addr headers.rkey_info headers.tid
    pure tt

  -- in_buf = calloc(1, buflen + 1), and the memcpy of the payload's first buflen + 1 bytes
  copy_value : Message ServerHeaders → Exec Queue (Option Buffer)
  unfolding calloc_buffer
  copy_value response =
      let size = response.headers.buflen + 1 in
      if ltb 0 response.headers.buflen
      then (do
        made ← calloc_buffer size
        b ← deref made
        assert (leb size server_response_payload_len)
        pure (some (record b { byte = splice b.byte 0 (read_bytes response.buffer size) })))
      else calloc_buffer 1

  unfoldable pub client_handle_get_response : Message ServerHeaders → Exec Client (Unit {0})
  unfolding copy_value
  client_handle_get_response response = in_queue do
    found ← get_client_pending_request response.headers.tid
    in_buf ← copy_value response
    p ← deref found
    pending_req ← load p
    store p (record pending_req { in_buf = in_buf; is_pending = false })

  unfoldable pub client_handle_recv : ℕ → Exec Client (Unit {0})
  client_handle_recv buff_id = do
    response ← gets λ s. s.ctx.in_buf buff_id
    elim response.headers.response [
      | get_response ↦ client_handle_get_response response
      | rdma_rkey_get ↦ client_handle_recv_rdma_rkey_get response.headers
      | rdma_rkey_set ↦ client_handle_recv_rdma_rkey_set response.headers
      | server_shutdown ↦ exit 1
      | _ ↦ pure tt
    ]

  -- `true` if the posted buffers are enough to go on.
  unfoldable pub refill_recv_buffers : Exec Client Bool
  refill_recv_buffers = do
    in_ctx (modify λ ctx. record ctx { curr_recv_buff = dec_int ctx.curr_recv_buff })
    ctx ← gets λ s. s.ctx
    if int_leb ctx.curr_recv_buff (pos 10)
        then (do
          n ← client_post_recv_buffers (sub_rounds (dec_int ctx.max_recv_buff) ctx.curr_recv_buff) 0
          let curr = add_int ctx.curr_recv_buff n
          in_ctx (modify λ c. record c { curr_recv_buff = curr })
          if int_ltb curr (dec_int ctx.max_recv_buff) then pure false else pure true)
        else pure true

  -- The last step of a write: the request is done with.
  finish_read : ℕ → Exec Queue (Unit {0})
  finish_read tid = do
    found ← get_client_pending_request tid
    p ← deref found
    pending_req ← load p
    store p (record pending_req { is_pending = false })

  finish_write : ℕ → Exec Queue (Unit {0})
  finish_write tid = do
    found ← get_client_pending_request tid
    p ← deref found
    pending_req ← load p
    store p (record pending_req { out_buf = none })
    remove_client_pending_request tid

  -- One round of the loop over the completions. `false` is `return 1`.
  unfoldable pub handle_completion : Wc → Exec Client Bool
  unfolding finish_read finish_write
  handle_completion wc =
      if wc.success
      then (let tid = wc.wr_id.wr_id % 65536 in
          elim wc.wr_id.wr_type [
            | send_wrid ↦ do in_ctx (free_send_buffer wc.wr_id.wr_id); pure true
            | recv_wrid ↦ do
              enough ← refill_recv_buffers
              if enough
                  then (do
                    client_handle_recv wc.wr_id.wr_id
                    in_ctx (release_receive_buffer wc.wr_id.wr_id)
                    pure true)
                  else pure false
            | rdma_read_wrid ↦ do client_send_rdma_fin tid; in_queue (finish_read tid); pure true
            | rdma_write_wrid ↦ do client_send_rdma_fin tid; in_queue (finish_write tid); pure true
            | _ ↦ pure false
          ])
      else exit 2

  -- The loop over one batch, which counts what it has handled; `none` is `return 1`.
  unfoldable pub handle_completions : List Wc → ℕ → Exec Client (Option ℕ)
  unfolding handle_completion
  handle_completions [] count = pure (some count)
  handle_completions (wc ∷ rest) count = do
    go_on ← handle_completion wc
    let more = handle_completions rest (count + 1)
    if go_on then more else pure none
