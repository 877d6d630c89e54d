-- ===== src/Handshake/Accept/Connected.antt =====
-- handle_received_connection_data of server.c on the message of a client that can be connected.
use rdma_rendezvous_key_valu.Prelude.{
  ℕ, suc, ◌%◌, ◌^◌, ◌<◌, ◌≡◌, refl, subst, true, false, List, [], ◌∷◌, ◌++◌, Option, some, length,
  All, arith, update, pos, int_ltb, ==_refl, ◌==◌,
}
use rdma_rendezvous_key_valu.Prelude.Exec.{done}
use rdma_rendezvous_key_valu.Platform.{Platform}
use rdma_rendezvous_key_valu.Common.Constants.{max_clients_supported, max_recv_buffs}
use rdma_rendezvous_key_valu.Common.Connection.{KvDest}
use rdma_rendezvous_key_valu.Server.State.{Server}
use rdma_rendezvous_key_valu.Server.Connections.{add_new_connection, server_post_recv_buffers}
use rdma_rendezvous_key_valu.Handshake.{client_message, server_message}
use rdma_rendezvous_key_valu.Handshake.Agree.{FitsFormat, read_client_message-client_message}
use rdma_rendezvous_key_valu.Handshake.Sockets.{Socket, read_exactly}
use rdma_rendezvous_key_valu.Handshake.Sockets.Pieces.{
  joined, arriving, IsPiece, read_exactly-joined,
}
use rdma_rendezvous_key_valu.Handshake.Dial.{answer_size, done_message}
use rdma_rendezvous_key_valu.Handshake.Dial.Answered.{
  text_of-terminated, length-server_message, client_message-IsCString,
}
use rdma_rendezvous_key_valu.Handshake.Accept.{
  send_address_back_to_client, Accepting, create_new_qp, connect_ctx,
  handle_received_connection_data,
}

-- What the socket is when the answer is sent and the client has confirmed it.
abbrev answered_socket : ℕ → KvDest → List (Option (List ℕ)) → Socket → Socket
answered_socket i d rest s = record s {
  pieces = rest;
  writes = suc s.writes;
  written = s.written ++ (server_message i d ++ 0 ∷ []);
  open_end = false;
}

send_address_back-confirmed :
    (i : ℕ) (d : KvDest) (ps : List (List ℕ)) (rest : List (Option (List ℕ))) (s : Socket)
    → i < max_clients_supported
    → FitsFormat d
    → s.accepts s.writes ≡ true
    → All IsPiece ps
    → joined ps ≡ done_message
    → s.pieces ≡ arriving ps rest
    → send_address_back_to_client i d s ≡ done (true, answered_socket i d rest s)
unfolding send_address_back_to_client
send_address_back-confirmed i d ps rest s h v taken pieces whole arrives =
    let msg = server_message i d ++ 0 ∷ [] in
    let size : (length msg == answer_size) ≡ true = ground (arith, length-server_message i d h v) in
    let u : Socket = record s { writes = suc s.writes; written = s.written ++ msg } in
    let received : read_exactly (length done_message) u
        ≡ done (some done_message, record u { pieces = rest }) =
      subst (λ m. read_exactly (length m) u ≡ done (some m, record u { pieces = rest })) whole
        (read_exactly-joined ps rest u pieces arrives) in
    rw (size, taken, received)

module _ ⦃x : Platform⦄ where
  -- The server when a queue pair has been made and connected.
  abbrev pub after_verbs : Server → Server
  after_verbs s = record s { calls = suc (suc (suc (suc s.calls))) }

  create_new_qp-made :
      (qp : ℕ) (s : Server)
      → x.ibv_create_qp s.calls ≡ some qp
      → ((n : ℕ) → x.ibv_modify_qp n qp ≡ 0)
      → create_new_qp s ≡ done (some qp, record s { calls = suc (suc s.calls) })
  unfolding create_new_qp
  create_new_qp-made qp s made ok = rw (made, ok (suc s.calls))

  connect_ctx-made :
      (qp : ℕ) (s : Server)
      → ((n : ℕ) → x.ibv_modify_qp n qp ≡ 0)
      → connect_ctx qp s ≡ done (true, record s { calls = suc (suc s.calls) })
  unfolding connect_ctx
  connect_ctx-made qp s ok = rw (ok s.calls, ok (suc s.calls))

  -- The address that the server sends.
  abbrev pub dest_of : ℕ → ℕ → KvDest → KvDest
  dest_of qp random port = record port { qpn = qp; psn = random % 2 ^ 24 }

  -- A client's message is received, its address fits the format, as does the server's own; the verbs
  -- succeed; a slot i below 4 is free and its receive buffers can be posted, as many as it is to
  -- have; the answer is taken whole, and "done" arrives in any pieces of a byte or more. Then
  -- handle_received_connection_data returns EXIT_SUCCESS: it has sent the message for the slot, with
  -- the number of the new queue pair, it has closed the socket, and the connection counts its
  -- posted buffers.
  pub handle_received_connection_data_lem :
      (qp random i n : ℕ) (port d : KvDest) (ps : List (List ℕ)) (rest : List (Option (List ℕ)))
      (s : Accepting) (s1 s2 : Server)
      → x.ibv_create_qp s.server.calls ≡ some qp
      → ((n : ℕ) → x.ibv_modify_qp n qp ≡ 0)
      → FitsFormat d
      → FitsFormat (dest_of qp random port)
      → i < max_clients_supported
      → add_new_connection qp (pos max_recv_buffs) (pos 0) (after_verbs s.server) ≡ done (i, s1)
      → s.socket.accepts s.socket.writes ≡ true
      → All IsPiece ps
      → joined ps ≡ done_message
      → s.socket.pieces ≡ arriving ps rest
      → server_post_recv_buffers i s1 ≡ done (n, s2)
      → int_ltb (pos n) (s2.connections i).max_recv_buff ≡ false
      → (t : Accepting) × (handle_received_connection_data random port
            (client_message d ++ 0 ∷ [])
            s
          ≡ done (true, t))
        × (t.socket.written
            ≡ s.socket.written ++ (server_message i (dest_of qp random port) ++ 0 ∷ []))
        × (t.socket.open_end ≡ false)
        × ((t.server.connections i).curr_recv_buff ≡ pos n)
  unfolding handle_received_connection_data
  handle_received_connection_data_lem qp random i n port d ps rest s s1 s2 made ok v w h added taken
        pieces whole arrives posted enough =
      let (_, (e, read, _)) = read_client_message-client_message d v in
      (
        record {
          server = record s2 {
            connections =
                update s2.connections i (record (s2.connections i) { curr_recv_buff = pos n });
          };
          socket = answered_socket i (dest_of qp random port) rest s.socket;
        },
        rw (
          create_new_qp-made qp s.server made ok,
          text_of-terminated (client_message d) (client_message-IsCString d),
          read,
          connect_ctx-made qp (record s.server { calls = suc (suc s.server.calls) }) ok,
          added,
          send_address_back-confirmed i (dest_of qp random port) ps rest s.socket h w taken pieces
              whole arrives,
          posted,
          enough,
        ),
        refl,
        refl,
        rw (==_refl i),
      )
