-- ===== src/Main.antt =====
-- The server's program as a whole: server_loop of server.c, from the set-up in
-- init_server_connection to the end in teardown_server_connection.
pub mod Start
pub mod Open
use rdma_rendezvous_key_valu.Prelude.{
  ℕ, zero, suc, ◌*◌, Bool, true, false, ◌&&◌, Option, none, some, if◌then◌else◌, ◌==◌, List, [],
  ◌∷◌, zeroed,
}
use rdma_rendezvous_key_valu.Prelude.Exec.{Exec, pure, exit, gets, modify, zoom, ◌>>=◌, ◌>>◌}
use rdma_rendezvous_key_valu.Platform.{Platform}
use rdma_rendezvous_key_valu.Common.Constants.{
  server_num_recv_buffs, server_num_send_buffs, buffer_size, max_clients_supported,
}
use rdma_rendezvous_key_valu.Common.Connection.{KvDest}
use rdma_rendezvous_key_valu.Common.Objects.{Verbs, Objects}
use rdma_rendezvous_key_valu.Common.Objects.Setup.{ContextObjects, server_init_ctx}
use rdma_rendezvous_key_valu.Common.Objects.Release.{destroy_own_qp, release_objects}
use rdma_rendezvous_key_valu.Server.Db.Items.{db_init}
use rdma_rendezvous_key_valu.Server.Store.{in_db, in_reqs}
use rdma_rendezvous_key_valu.Server.Requests.{server_pending_requests_init}
use rdma_rendezvous_key_valu.Server.State.{Server, in_store}
use rdma_rendezvous_key_valu.Server.Completions.{server_wait_completions, handle_pending_request}
use rdma_rendezvous_key_valu.Server.Teardown.{
  server_pending_requests_destroy, db_destroy, close_connections,
}
use rdma_rendezvous_key_valu.Handshake.Listen.{Listener, close_sd, accept_new_connection, in_os}

-- What `main` starts: client_loop, with the name of the input file (`none` is NULL), or server_loop.
pub data Role : Type 0 where
  run_client : (servername : List ℕ) → (input_file : Option (List ℕ)) → Role
  run_server : Role

-- main and main_loop of main.c, by the arguments behind the name of the program. A third one makes
-- the input file NULL.
unfoldable pub main_role : List (List ℕ) → Role
main_role [] = run_server
main_role (servername ∷ []) = run_client servername none
main_role (servername ∷ input_file ∷ []) = run_client servername (some input_file)
main_role (servername ∷ _ ∷ _ ∷ _) = run_client servername none

-- What ibv_query_port reports.
pub record PortInfo : Type 0 where
  pub is_infiniband : Bool
  pub lid : ℕ

-- A round of the server's loop: what lrand48 and the clock will return in it.
pub record Round : Type 0 where
  pub random : ℕ
  pub curr_time : ℕ

module _ ⦃x : Platform⦄ where
  -- `dev_list`: whether it is not null.
  pub record Process : Type 0 where
    pub listener : Listener
    pub objects : Objects
    pub dev_list : Bool

  abbrev pub in_listener : {A : Type 0} → Exec Listener A → Exec Process A
  in_listener = zoom (λ s. s.listener) (λ s t. record s { listener = t })

  abbrev pub in_server : {A : Type 0} → Exec Server A → Exec Process A
  in_server =
      zoom (λ s. s.listener.server) λ s t. record s { listener = record s.listener { server = t } }

  abbrev pub in_objects : {A : Type 0} → Exec Objects A → Exec Process A
  in_objects = zoom (λ s. s.objects) (λ s t. record s { objects = t })

  -- `depth` bounds how deep the waits for completions go.
  module _ ⦃v : Verbs⦄ (depth : ℕ) where
    -- `true` is the result 0.
    unfoldable pub server_close_ctx : ContextObjects → Exec Process Bool
    server_close_ctx ctx = do
      destroyed ← in_objects (destroy_own_qp ctx)
      if destroyed
          then (do
            in_server
                (close_connections depth (server_wait_completions depth) max_clients_supported 0)
            in_objects (release_objects ctx)
            pure true)
          else pure false

    close_listening : Option ℕ → Exec Process (Unit {0})
    close_listening none = pure tt
    close_listening (some sd) = in_listener (in_os (close_sd sd))

    close_context : Option ContextObjects → Exec Process (Unit {0})
    unfolding server_close_ctx
    close_context none = pure tt
    close_context (some ctx) = do closed ← server_close_ctx ctx; pure tt

    -- A context that is not there yet is `none`.
    unfoldable pub teardown_server_connection :
        {A : Type 0} → Option ContextObjects → ℕ → Exec Process A
    unfolding close_listening close_context
    teardown_server_connection ctx retcode = do
      listen_sd ← gets λ s. s.listener.os.listen_sd
      close_listening listen_sd
      in_server (in_store server_pending_requests_destroy)
      in_server (in_store (in_db db_destroy))
      modify λ s. record s { dev_list = false }
      close_context ctx
      exit retcode

    -- get_port_info, and the test of its result; my_dest has the port's lid and a gid of zeroes.
    check_port : Option PortInfo → ContextObjects → Exec Process (ContextObjects × KvDest)
    unfolding teardown_server_connection
    check_port none ctx = teardown_server_connection (some ctx) 1
    check_port (some portinfo) ctx =
        if portinfo.is_infiniband && (portinfo.lid == 0)
        then teardown_server_connection (some ctx) 1
        else pure (ctx, record { lid = portinfo.lid; qpn = 0; psn = 0; gid = zeroed })

    make_context : Option PortInfo → Option ContextObjects → Exec Process (ContextObjects × KvDest)
    unfolding check_port
    make_context port none = teardown_server_connection none 1
    make_context port (some ctx) = do in_server (in_store (in_db db_init)); check_port port ctx

    -- `devices` is what ibv_get_device_list returns (`none` for NULL): whether there is a device.
    -- `port` is what ibv_query_port does (`none` is a failure).
    unfoldable pub init_server_connection :
        (devices : Option Bool) (port : Option PortInfo) → Exec Process (ContextObjects × KvDest)
    unfolding make_context
    init_server_connection none port = do
      modify λ s. record s { dev_list = false }
      teardown_server_connection none 1
    init_server_connection (some false) port = do
      modify λ s. record s { dev_list = true }
      teardown_server_connection none 1
    init_server_connection (some true) port = do
      modify λ s. record s { dev_list = true }
      in_server (in_store (in_reqs server_pending_requests_init))
      ctx ← in_objects (
          server_init_ctx (server_num_recv_buffs * buffer_size)
            (server_num_send_buffs * buffer_size) server_num_recv_buffs)
      make_context port ctx

    -- The `while` loop, over the rounds before a signal ends it.
    unfoldable pub serve : KvDest → List Round → Exec Process (Unit {0})
    serve port_dest [] = pure tt
    serve port_dest (round ∷ rounds) = do
      accepted ← in_listener (accept_new_connection round.random port_dest)
      in_server (server_wait_completions depth)
      in_server (handle_pending_request depth round.curr_time)
      serve port_dest rounds

    -- From the state in which the process starts to exit(EXIT_SUCCESS).
    unfoldable pub server_loop :
        (devices : Option Bool) (port : Option PortInfo)
        → (start : ℕ) → List Round
        → Exec Process (Unit {0})
    unfolding init_server_connection serve
    server_loop devices port start rounds = do
      (ctx, my_dest) ← init_server_connection devices port
      in_server (modify λ s. record s { last_qp_state_check = start })
      serve my_dest rounds
      teardown_server_connection (some ctx) 0
