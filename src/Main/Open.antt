-- ===== src/Main/Open.antt =====
-- The client's program up to its first request: kv_open of client.c, with the loop by which
-- client_exch_dest connects, and kv_close where it is called before the end.
use rdma_rendezvous_key_valu.Prelude.{
  ℕ, suc, ◌*◌, ◌%◌, ◌^◌, Bool, true, false, ◌&&◌, List, [], ◌∷◌, Option, none, some, if◌then◌else◌,
  ◌==◌, pos, ltb, zeroed,
}
use rdma_rendezvous_key_valu.Prelude.Exec.{
  done, stuck, Exec, pure, exit, gets, modify, zoom, ◌>>=◌, ◌>>◌,
}
use rdma_rendezvous_key_valu.Platform.{Platform}
use rdma_rendezvous_key_valu.Common.Constants.{
  server_num_recv_buffs, server_num_send_buffs, buffer_size,
}
use rdma_rendezvous_key_valu.Common.Connection.{KvDest}
use rdma_rendezvous_key_valu.Common.Objects.{Verbs, Objects}
use rdma_rendezvous_key_valu.Common.Objects.Setup.{ContextObjects, client_init_ctx}
use rdma_rendezvous_key_valu.Common.Objects.Release.{release_client}
use rdma_rendezvous_key_valu.Client.Requests.{
  client_pending_requests_init, destroy_pending_request_queue,
}
use rdma_rendezvous_key_valu.Client.State.{Client, in_ctx, in_queue}
use rdma_rendezvous_key_valu.Client.Completions.{client_post_recv_buffers}
use rdma_rendezvous_key_valu.Client.Teardown.{wait_remaining, client_close_ctx}
use rdma_rendezvous_key_valu.Handshake.Sockets.{Socket, close}
use rdma_rendezvous_key_valu.Handshake.Dial.{Dialer, client_exch_dest}
use rdma_rendezvous_key_valu.Main.{PortInfo}

-- A round of the loop that connects: whether a socket is made, whether it connects, and whether a
-- signal has come before.
pub record Attempt : Type 0 where
  pub shutdown : Bool
  pub made : Bool
  pub connects : Bool

-- What the system answers: ibv_get_device_list (`none` for NULL, and whether there is a device),
-- ibv_query_port (`none` is a failure), lrand48, the calloc of rem_dest, and the attempts to connect.
pub record Answers : Type 0 where
  pub devices : Option Bool
  pub port : Option PortInfo
  pub random : ℕ
  pub allocated : Bool
  pub attempts : List Attempt

module _ ⦃x : Platform⦄ where
  -- `connected`: whether sockfd_client is a socket.
  pub record Opening : Type 0 where
    pub client : Client
    pub socket : Socket
    pub connected : Bool
    pub objects : Objects

  abbrev pub in_client : {A : Type 0} → Exec Client A → Exec Opening A
  in_client = zoom (λ s. s.client) (λ s t. record s { client = t })

  abbrev pub in_socket : {A : Type 0} → Exec Socket A → Exec Opening A
  in_socket = zoom (λ s. s.socket) (λ s t. record s { socket = t })

  abbrev pub in_objects : {A : Type 0} → Exec Objects A → Exec Opening A
  in_objects = zoom (λ s. s.objects) (λ s t. record s { objects = t })

  -- The socket and the transaction ids, which client_exch_dest uses.
  abbrev pub in_dialer : {A : Type 0} → Exec Dialer A → Exec Opening A
  in_dialer =
      zoom (λ s. record { socket = s.socket; last_used_tid = s.client.last_used_tid })
        λ s t. record s {
          socket = t.socket;
          client = record s.client { last_used_tid = t.last_used_tid };
        }

  module _ ⦃v : Verbs⦄ (rounds : ℕ) where
    close_client_socket : Exec Opening (Unit {0})
    close_client_socket = do
      connected ← gets λ s. s.connected
      if connected then in_socket close else pure tt

    -- kv_close, where the context may be missing.
    unfoldable pub kv_close_ctx : Option ContextObjects → Exec Opening (Unit {0})
    unfolding close_client_socket
    kv_close_ctx none = close_client_socket
    kv_close_ctx (some ctx) = do
      in_client (wait_remaining rounds rounds)
      close_client_socket
      in_client (in_queue destroy_pending_request_queue)
      in_client (client_close_ctx rounds)
      in_objects (release_client ctx)

    -- `kv_close(ctx); exit(1);`
    unfoldable pub give_up : {A : Type 0} → Option ContextObjects → Exec Opening A
    unfolding kv_close_ctx
    give_up ctx = do kv_close_ctx ctx; exit 1

    -- The `while` loop of client_exch_dest.
    unfoldable pub connect_loop : ContextObjects → List Attempt → Exec Opening (Unit {0})
    unfolding give_up
    connect_loop ctx [] s = stuck
    connect_loop ctx (a ∷ rest) s =
        let again = connect_loop ctx rest s in
        if a.shutdown
        then give_up (some ctx) s
        else if a.made && a.connects
        then done (tt, record s { connected = true })
        else again

    -- connect_ctx, on the queue pair of the client
    unfoldable pub connect_client : Exec Opening Bool
    connect_client = in_client do
      to_rtr ← (λ s. done (x.ibv_modify_qp s.calls s.qp_num == 0, record s { calls = suc s.calls }))
      if to_rtr
          then (λ s. done (x.ibv_modify_qp s.calls s.qp_num == 0, record s { calls = suc s.calls }))
          else pure false

    -- From the address of the port on.
    unfoldable pub open_connection : Answers → ContextObjects → KvDest → Exec Opening ContextObjects
    unfolding connect_loop connect_client
    open_connection answers ctx my_dest = do
      connect_loop ctx answers.attempts
      rem_dest ← in_dialer (client_exch_dest answers.allocated my_dest)
      elim rem_dest [
        | none ↦ give_up (some ctx)
        | some dest ↦ do
          ready ← connect_client
          if ready
              then (do in_client (in_queue client_pending_requests_init); pure ctx)
              else give_up (some ctx)
      ]

    -- From the receive buffers on.
    unfoldable pub open_port : Answers → ContextObjects → Exec Opening ContextObjects
    unfolding open_connection
    open_port answers ctx = do
      posted ← in_client (client_post_recv_buffers server_num_recv_buffs 0)
      in_client (in_ctx (modify λ c. record c { curr_recv_buff = pos posted }))
      if ltb posted server_num_recv_buffs then give_up (some ctx) else elim answers.port [
        | none ↦ give_up (some ctx)
        | some portinfo ↦
            if portinfo.is_infiniband && (portinfo.lid == 0) then give_up (some ctx) else (do
              qp ← in_client (gets λ s. s.qp_num)
              open_connection answers ctx (record {
                lid = portinfo.lid;
                qpn = qp;
                psn = answers.random % 2 ^ 24;
                gid = zeroed;
              }))
      ]

    unfoldable pub kv_open : Answers → Exec Opening ContextObjects
    unfolding open_port
    kv_open answers = elim answers.devices [
      | some true ↦ do
        ctx ← in_objects (
            client_init_ctx (server_num_recv_buffs * buffer_size)
              (server_num_send_buffs * buffer_size) server_num_recv_buffs false)
        elim ctx [ none ↦ give_up none | some c ↦ open_port answers c ]
      | _ ↦ give_up none
    ]
