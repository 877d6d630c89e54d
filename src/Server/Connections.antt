-- ===== src/Server/Connections.antt =====
-- The connections of server.c, and the receive buffers that are posted for them.
pub mod Slots
pub mod Release
use rdma_rendezvous_key_valu.Prelude.{
  ℕ, zero, suc, ◌+◌, Bool, true, false, List, [], ◌∷◌, Option, none, some, ltb, ◌==◌, if◌then◌else◌,
  update, ℤ, pos, negsuc, dec_int, inc_int, sub_rounds, int_eq, int_ltb,
}
use rdma_rendezvous_key_valu.Prelude.Exec.{
  Outcome, done, exited, fault, Exec, pure, gets, modify, deref, assert, ◌>>=◌, ◌>>◌,
}
use rdma_rendezvous_key_valu.Platform.{Platform}
use rdma_rendezvous_key_valu.Common.Constants.{
  max_clients_supported, server_num_recv_buffs, recv_wrid,
}
use rdma_rendezvous_key_valu.Common.Message.{WrIdInfo, blank_message, client_blank}
use rdma_rendezvous_key_valu.Common.Context.{KvContext, recv_wr}
use rdma_rendezvous_key_valu.Common.Buffers.{
  get_free_recv_idx, acquire_receive_buffer, release_receive_buffer,
}
use rdma_rendezvous_key_valu.Server.Requests.{invalidate_requests_by_qp}
use rdma_rendezvous_key_valu.Server.State.{Ctx, Connection, ServerState, Server, in_store, in_ctx}

abbrev pub has_qp : Option ℕ → ℕ → Bool
has_qp none qp_num = false
has_qp (some q) qp_num = q == qp_num

-- The loop of get_connection over the indices i, …, i + rounds - 1.
unfoldable pub find_connection : ℕ → ℕ → (ℕ → Connection) → ℕ → Option ℕ
find_connection zero i connections qp_num = none
find_connection (suc rounds) i connections qp_num =
    let rest = find_connection rounds (i + 1) connections qp_num in
    if has_qp (connections i).qp qp_num then some i else rest

-- The loop of add_new_connection; past the last index if no slot is free.
unfoldable pub find_free_slot : ℕ → ℕ → (ℕ → Connection) → ℕ
find_free_slot zero i connections = i
find_free_slot (suc rounds) i connections =
    let rest = find_free_slot rounds (i + 1) connections in
    elim (connections i).qp [ none ↦ i | some q ↦ rest ]

module _ ⦃x : Platform⦄ where
  abbrev pub set_connection : ℕ → Connection → Exec Server (Unit {0})
  set_connection i c = modify λ s. record s { connections = update s.connections i c }

  -- The index of the connection, `none` for NULL.
  unfoldable pub get_connection : ℕ → Exec Server (Option ℕ)
  unfolding find_connection
  get_connection qp_num = gets λ s. find_connection max_clients_supported 0 s.connections qp_num

  unfoldable pub check_available_connection_slots : Exec Server Bool
  check_available_connection_slots =
      gets λ s. int_ltb s.current_number_conns (pos max_clients_supported)

  unfoldable pub add_new_connection : ℕ → ℤ → ℤ → Exec Server ℕ
  unfolding find_free_slot
  add_new_connection qp max_recv_buff curr_recv_buff = do
    curr_idx ← gets λ s. find_free_slot max_clients_supported 0 s.connections
    assert (ltb curr_idx max_clients_supported)
    c ← gets λ s. s.connections curr_idx
    set_connection curr_idx (record c {
      qp = some qp;
      curr_recv_buff =
          (if int_eq c.curr_recv_buff (pos 0) then curr_recv_buff else c.curr_recv_buff);
      max_recv_buff = max_recv_buff;
    })
    modify λ s. record s { last_client_id = pos curr_idx }
    pure curr_idx

  -- The last loop of remove_connection, from the index i.
  unfoldable pub release_buffers : ℕ → ℕ → ℕ → Exec Server (Unit {0})
  release_buffers zero i c = pure tt
  release_buffers (suc rounds) i c = do
    connection ← gets λ s. s.connections c
    if connection.buff_in_use i
        then (do
          in_ctx (release_receive_buffer i)
          set_connection c
              (record connection { buff_in_use = update connection.buff_in_use i false }))
        else pure tt
    release_buffers rounds (i + 1) c

  -- 0 is success
  ibv_destroy_qp : ℕ → Exec Server Bool
  ibv_destroy_qp qp s = done (x.ibv_destroy_qp s.calls qp == 0, record s { calls = suc s.calls })

  -- EXIT_SUCCESS is `true`.
  unfoldable pub remove_connection : ℕ → Exec Server Bool
  unfolding ibv_destroy_qp
  remove_connection qp_num = do
    found ← get_connection qp_num
    elim found [
      | none ↦ pure false
      | some i ↦ do
        curr_connection ← gets λ s. s.connections i
        qp ← deref curr_connection.qp
        in_store (invalidate_requests_by_qp qp)
        destroyed ← ibv_destroy_qp qp
        if destroyed
            then (do
              set_connection i (record curr_connection {
                qp = none;
                max_recv_buff = pos 0;
                curr_recv_buff = pos 0;
              })
              modify λ s. record s { current_number_conns = dec_int s.current_number_conns }
              release_buffers server_num_recv_buffs 0 i
              pure true)
            else pure false
    ]

  -- `true` for 0. The buffer is cleared before it is posted.
  unfoldable pub server_post_recv : ℕ → ℕ → Exec Server Bool
  server_post_recv qp buff_id = do
    in_ctx (modify λ ctx. record ctx { in_buf = update ctx.in_buf buff_id blank_message })
    calls ← gets λ s. s.calls
    modify λ s. record s { calls = suc s.calls }
    if x.ibv_post_recv calls qp == 0
        then (do
          in_ctx do
            modify λ ctx. record ctx {
              posted = recv_wr qp (record { wr_id = buff_id; wr_type = recv_wrid }) ∷ ctx.posted;
            }
            acquire_receive_buffer buff_id
          pure true)
        else pure false

  -- The loop of server_post_recv_buffers, with `rounds` rounds left.
  unfoldable pub post_rounds : ℕ → ℕ → ℕ → ℕ → Exec Server ℕ
  post_rounds zero qp c rx_outs = pure rx_outs
  post_rounds (suc rounds) qp c rx_outs = do
    buff_idx ← in_ctx get_free_recv_idx
    elim buff_idx [
      | none ↦ pure rx_outs
      | some i ↦ do
        ok ← server_post_recv qp i
        if ok
            then (do
              connection ← gets λ s. s.connections c
              set_connection c
                  (record connection { buff_in_use = update connection.buff_in_use i true })
              post_rounds rounds qp c (rx_outs + 1))
            else post_rounds rounds qp c rx_outs
    ]

  unfoldable pub server_post_recv_buffers : ℕ → Exec Server ℕ
  unfolding post_rounds
  server_post_recv_buffers c = do
    connection ← gets λ s. s.connections c
    qp ← deref connection.qp
    post_rounds (sub_rounds connection.max_recv_buff connection.curr_recv_buff) qp c 0
