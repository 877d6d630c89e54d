-- ===== src/Client/Completions.antt =====
-- What client.c posts, and how it handles completions. A path that calls kv_close and exit ends the
-- process; the clean-up of kv_close before that is not modelled.
pub mod Handling
pub mod Response
use rdma_rendezvous_key_valu.Prelude.{
  ℕ, zero, suc, ◌+◌, ◌%◌, ◌^◌, Bool, true, false, List, [], ◌∷◌, Option, none, some, ltb, leb, ◌==◌,
  if◌then◌else◌, update, length, zeroed, splice, read_bytes, pos, dec_int, add_int, sub_rounds,
  int_leb, int_ltb,
}
use rdma_rendezvous_key_valu.Prelude.Exec.{
  done, Exec, pure, exit, gets, modify, deref, assert, ◌>>=◌, ◌>>◌,
}
use rdma_rendezvous_key_valu.Platform.{Platform}
use rdma_rendezvous_key_valu.Common.Constants.{
  client_header_len, server_response_payload_len, recv_wrid, send_wrid, rdma_read_wrid,
  rdma_write_wrid, Opcode, zero_opcode, rdma_get_request, rdma_fin_client, get_response,
  rdma_rkey_set, rdma_rkey_get, server_shutdown,
}
use rdma_rendezvous_key_valu.Common.Message.{
  Message, ClientHeaders, ServerHeaders, RkeyInfo, WrIdInfo, blank_message, server_blank,
  client_blank,
}
use rdma_rendezvous_key_valu.Common.Context.{recv_wr, send_wr, rdma_wr}
use rdma_rendezvous_key_valu.Common.Buffers.{
  get_free_recv_idx, get_free_send_idx, acquire_receive_buffer, acquire_send_buffer,
  release_receive_buffer, free_send_buffer,
}
use rdma_rendezvous_key_valu.Server.Db.{Buffer, Mr}
use rdma_rendezvous_key_valu.Client.Requests.{
  Queue, load, store, calloc, get_client_pending_request, remove_client_pending_request,
}
use rdma_rendezvous_key_valu.Client.State.{Wc, Client, in_ctx, in_queue}

module _ ⦃x : Platform⦄ where
  -- The number of the next call of the verbs.
  next_call : Exec Client ℕ
  next_call s = done (s.calls, record s { calls = suc s.calls })

  unfoldable pub client_post_recv : ℕ → Exec Client Bool
  unfolding next_call
  client_post_recv buff_id = do
    in_ctx (modify λ ctx. record ctx { in_buf = update ctx.in_buf buff_id blank_message })
    calls ← next_call
    qp ← gets λ s. s.qp_num
    if x.ibv_post_recv calls qp == 0
        then (do
          in_ctx (
              modify λ ctx. record ctx {
                posted = recv_wr qp (record { wr_id = buff_id; wr_type = recv_wrid }) ∷ ctx.posted;
              })
          pure true)
        else pure false

  -- With `rounds` rounds left of the loop.
  unfoldable pub client_post_recv_buffers : ℕ → ℕ → Exec Client ℕ
  client_post_recv_buffers zero rx_outs = pure rx_outs
  client_post_recv_buffers (suc rounds) rx_outs = do
    buff_idx ← in_ctx get_free_recv_idx
    elim buff_idx [
      | none ↦ pure rx_outs
      | some i ↦ do
        ok ← client_post_recv i
        if ok
            then (do
              in_ctx (acquire_receive_buffer i)
              client_post_recv_buffers rounds (rx_outs + 1))
            else client_post_recv_buffers rounds rx_outs
    ]

  abbrev is_zero_opcode : Opcode → Bool
  is_zero_opcode zero_opcode = true
  is_zero_opcode _ = false

  -- `true` for 0
  unfoldable pub client_post_send : ℕ → ℕ → Exec Client Bool
  unfolding next_call
  client_post_send size buff_id = do
    message ← gets λ s. s.ctx.out_buf buff_id
    if is_zero_opcode message.headers.opcode then exit 1 else do
      calls ← next_call
      qp ← gets λ s. s.qp_num
      if x.ibv_post_send calls qp == 0
          then (do
            in_ctx (
                modify λ ctx. record ctx {
                  posted =
                      send_wr qp size (record { wr_id = buff_id; wr_type = send_wrid }) message
                      ∷ ctx.posted;
                })
            pure true)
          else pure false

  -- client_post_rdma_read and client_post_rdma_write, whose size is a uint32_t
  post_rdma : WrIdInfo → ℕ → ℕ → RkeyInfo → Exec Client Bool
  unfolding next_call
  post_rdma wr_id size laddr remote = do
    calls ← next_call
    qp ← gets λ s. s.qp_num
    if x.ibv_post_send calls qp == 0
        then (do
          in_ctx (
              modify λ ctx. record ctx {
                posted =
                    rdma_wr qp (size % 2 ^ 32) laddr remote.raddr remote.rkey wr_id ∷ ctx.posted;
              })
          pure true)
        else pure false

  unfoldable pub client_post_rdma_read : ℕ → ℕ → RkeyInfo → ℕ → Exec Client Bool
  unfolding post_rdma
  client_post_rdma_read size laddr remote tid =
      post_rdma (record { wr_id = tid; wr_type = rdma_read_wrid }) size laddr remote

  unfoldable pub client_post_rdma_write : ℕ → ℕ → RkeyInfo → ℕ → Exec Client Bool
  unfolding post_rdma
  client_post_rdma_write size laddr remote tid =
      post_rdma (record { wr_id = tid; wr_type = rdma_write_wrid }) size laddr remote

  -- The header, and the bytes from the start of the payload, into the send buffer.
  unfoldable pub write_request : ℕ → ClientHeaders → List ℕ → Exec Client (Unit {0})
  write_request buff_idx headers bytes = in_ctx (
      modify λ ctx. record ctx {
        out_buf =
            update ctx.out_buf buff_idx
              (record { headers = headers; buffer = splice (ctx.out_buf buff_idx).buffer 0 bytes });
      })

  unfoldable pub client_send_rdma_fin : ℕ → Exec Client (Unit {0})
  client_send_rdma_fin tid = do
    found ← in_queue (get_client_pending_request tid)
    buff_idx ← in_ctx get_free_send_idx
    elim buff_idx [
      | none ↦ exit 1
      | some i ↦ do
        in_ctx (acquire_send_buffer i)
        p ← deref found
        pending_req ← in_queue (load p)
        key ← deref pending_req.key
        write_request i
            (record { tid = tid; opcode = rdma_fin_client; keylen = length key; buflen = 0 }) key
        client_post_send (client_header_len + length key) i
        pure tt
    ]

  unfoldable pub calloc_buffer : ℕ → Exec Queue (Option Buffer)
  calloc_buffer size = do
    addr ← calloc
    pure
        (elim addr [ none ↦ none | some a ↦ some (record { addr = a; len = size; byte = zeroed }) ])

  abbrev addr_of : Option Buffer → ℕ
  addr_of none = 0
  addr_of (some b) = b.addr

  unfoldable pub ibv_reg_mr : ℕ → ℕ → Exec Queue (Option Mr)
  ibv_reg_mr addr len s = done (
    elim (x.ibv_reg_mr s.calls) [
      | none ↦ none
      | some rkey ↦ some (record { rkey = rkey; addr = addr; len = len })
    ],
    record s { calls = suc s.calls },
  )
