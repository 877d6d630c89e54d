-- ===== src/Handshake/Accept.antt =====
-- The server's side of the handshake: send_address_back_to_client, handle_received_connection_data
-- and create_new_qp of server.c, and connect_ctx of common/connection.c, as far as the calls of
-- libibverbs go that they make in turn. A path that tears the server down ends the process.
pub mod Connected
use rdma_rendezvous_key_valu.Prelude.{
  ℕ, suc, ◌+◌, ◌%◌, ◌^◌, Bool, true, false, List, [], ◌∷◌, ◌++◌, Option, none, some, if◌then◌else◌,
  ◌==◌, length, pos, int_ltb,
}
use rdma_rendezvous_key_valu.Prelude.Exec.{
  done, Exec, pure, exit, gets, modify, deref, assert, zoom, ◌>>=◌, ◌>>◌,
}
use rdma_rendezvous_key_valu.Platform.{Platform}
use rdma_rendezvous_key_valu.Common.Constants.{max_recv_buffs}
use rdma_rendezvous_key_valu.Common.Connection.{KvDest}
use rdma_rendezvous_key_valu.Server.State.{Connection, Server, ServerState}
use rdma_rendezvous_key_valu.Server.Connections.{
  add_new_connection, server_post_recv_buffers, set_connection,
}
use rdma_rendezvous_key_valu.Handshake.{server_message, read_client_message}
use rdma_rendezvous_key_valu.Handshake.Sockets.{Socket, write_bytes, read_exactly, close}
use rdma_rendezvous_key_valu.Handshake.Dial.{answer_size, done_message, text_of}

-- `true` is EXIT_SUCCESS.
unfoldable pub send_address_back_to_client : ℕ → KvDest → Exec Socket Bool
send_address_back_to_client last_client_id my_dest = do
  let msg_out = server_message last_client_id my_dest ++ 0 ∷ []
  assert (length msg_out == answer_size)
  sent ← write_bytes msg_out
  if sent
      then (do
        msg ← read_exactly (length done_message)
        close
        elim msg [ none ↦ pure false | some m ↦ pure true ])
      else pure false

module _ ⦃x : Platform⦄ where
  pub record Accepting : Type 0 where
    pub server : Server
    pub socket : Socket

  abbrev pub in_server : {A : Type 0} → Exec Server A → Exec Accepting A
  in_server = zoom (λ s. s.server) (λ s t. record s { server = t })

  abbrev pub in_accepted : {A : Type 0} → Exec Socket A → Exec Accepting A
  in_accepted = zoom (λ s. s.socket) (λ s t. record s { socket = t })

  -- The next call of ibv_modify_qp, and whether it succeeds.
  unfoldable pub modify_qp : ℕ → Exec Server Bool
  modify_qp qp s = done (x.ibv_modify_qp s.calls qp == 0, record s { calls = suc s.calls })

  -- The number of the new queue pair; a queue pair that cannot be initialised is not destroyed.
  unfoldable pub create_new_qp : Exec Server (Option ℕ)
  unfolding modify_qp
  create_new_qp = do
    calls ← gets λ s. s.calls
    modify λ s. record s { calls = suc s.calls }
    elim (x.ibv_create_qp calls) [
      | none ↦ pure none
      | some qp ↦ do ok ← modify_qp qp; pure (if ok then some qp else none)
    ]

  -- EXIT_SUCCESS is `true`: to RTR, and then to RTS.
  unfoldable pub connect_ctx : ℕ → Exec Server Bool
  unfolding modify_qp
  connect_ctx qp = do to_rtr ← modify_qp qp; if to_rtr then modify_qp qp else pure false

  -- With what lrand48 returns, the address of the port, and the message of the client.
  unfoldable pub handle_received_connection_data : ℕ → KvDest → List ℕ → Exec Accepting Bool
  handle_received_connection_data random port_dest msg = do
    new_qp ← in_server create_new_qp
    elim new_qp [
      | none ↦ pure false
      | some qp ↦ do
        let my_dest : KvDest = record port_dest { qpn = qp; psn = random % 2 ^ 24 }
        text ← deref (text_of msg)
        rem_dest ← deref (read_client_message text)
        connected ← in_server (connect_ctx qp)
        if connected
            then (do
              c ← in_server (add_new_connection qp (pos max_recv_buffs) (pos 0))
              sent ← in_accepted (send_address_back_to_client c my_dest)
              if sent
                  then (do
                    curr ← in_server (server_post_recv_buffers c)
                    connection ← in_server (gets λ s. s.connections c)
                    in_server (set_connection c (record connection { curr_recv_buff = pos curr }))
                    if int_ltb (pos curr) connection.max_recv_buff then exit 1 else pure true)
                  else exit 1)
            else pure false
    ]
