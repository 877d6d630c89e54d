-- ===== src/Handshake/Listen.antt =====
-- How server.c takes new clients in: accept_new_connection, create_listen_socket and
-- query_for_connections. The results of the calls of the operating system are in the state, as far
-- as the code uses them.
pub mod Lost
use rdma_rendezvous_key_valu.Prelude.{
  ℕ, suc, ◌+◌, Bool, true, false, List, [], ◌∷◌, ◌++◌, Option, none, some, if◌then◌else◌, ◌==◌,
  update, length, remove, ℤ, pos, int_eq, inc_int,
}
use rdma_rendezvous_key_valu.Prelude.Exec.{
  Outcome, done, Exec, pure, gets, modify, zoom, ◌>>=◌, ◌>>◌,
}
use rdma_rendezvous_key_valu.Platform.{Platform}
use rdma_rendezvous_key_valu.Common.Constants.{max_clients_supported, exchange_msg_size}
use rdma_rendezvous_key_valu.Common.Connection.{KvDest}
use rdma_rendezvous_key_valu.Server.State.{Server}
use rdma_rendezvous_key_valu.Server.Connections.{check_available_connection_slots}
use rdma_rendezvous_key_valu.Handshake.Sockets.{Socket}
use rdma_rendezvous_key_valu.Handshake.Accept.{Accepting, handle_received_connection_data}

-- The calls of create_listen_socket, in the order of their first use.
pub data OsCall : Type 0 where
  calloc sprintf getaddrinfo only_address setsockopt ioctl bind listen : OsCall

-- listen_sd (`none` is NOT_CONNECTED), master_set without it, the descriptors that were closed, and
-- what the operating system will return: each call of create_listen_socket, the calls of select
-- (`none` is an error, and no descriptor a timeout), of accept (`none` is a failure), and of recv.
pub record Listening : Type 0 where
  pub listen_sd : Option ℕ
  pub master_set : List ℕ
  pub closed : List ℕ
  pub calls : ℕ
  pub socket : (calls : ℕ) → Option ℕ
  pub succeeds : OsCall → (calls : ℕ) → Bool
  pub selects : List (Option (List ℕ))
  pub accepts : List (Option ℕ)
  pub recv : ℕ → List ℕ
  pub sockets : ℕ → Socket

abbrev pub close_sd : ℕ → Exec Listening (Unit {0})
close_sd sd = modify λ s. record s { closed = sd ∷ s.closed }

-- Whether that call of the operating system succeeds.
unfoldable pub try_call : OsCall → Exec Listening Bool
try_call call s = done (s.succeeds call s.calls, record s { calls = suc s.calls })

-- `if (rc) { close(listen_sd); return EXIT_FAILURE; }`, and otherwise the rest.
unfoldable pub configure : OsCall → ℕ → Exec Listening Bool → Exec Listening Bool
unfolding try_call
configure call sd next = do ok ← try_call call; if ok then next else (do close_sd sd; pure false)

-- A call before socket, whose failure ends the function.
unfoldable pub require : OsCall → Exec Listening Bool → Exec Listening Bool
unfolding try_call
require call next = do ok ← try_call call; if ok then next else pure false

-- From the call of socket on. listen_sd keeps the number of a socket that was closed.
unfoldable pub open_listen_socket : Exec Listening Bool
unfolding configure
open_listen_socket = do
  made ← (λ s. done (s.socket s.calls, record s { calls = suc s.calls }))
  modify λ s. record s { listen_sd = made }
  elim made [
    | none ↦ pure false
    | some sd ↦
        configure setsockopt sd
          (configure ioctl sd (configure bind sd (configure listen sd (pure true))))
  ]

-- `true` is EXIT_SUCCESS.
unfoldable pub create_listen_socket : Exec Listening Bool
unfolding require open_listen_socket
create_listen_socket =
    require calloc (require sprintf (require getaddrinfo (require only_address open_listen_socket)))

module _ ⦃x : Platform⦄ where
  pub record Listener : Type 0 where
    pub os : Listening
    pub server : Server

  abbrev pub in_os : {A : Type 0} → Exec Listening A → Exec Listener A
  in_os = zoom (λ s. s.os) (λ s t. record s { os = t })

  abbrev pub in_server : {A : Type 0} → Exec Server A → Exec Listener A
  in_server = zoom (λ s. s.server) (λ s t. record s { server = t })

  -- The server with the socket of that descriptor.
  abbrev pub in_accepting : {A : Type 0} → ℕ → Exec Accepting A → Exec Listener A
  in_accepting sd =
      zoom (λ s. record { server = s.server; socket = s.os.sockets sd })
        λ s t. record {
          os = record s.os { sockets = update s.os.sockets sd t.socket };
          server = t.server;
        }

  -- The inner loop, over what accept will return. A client too many ends it.
  unfoldable pub accept_each : List (Option ℕ) → Exec Listener (Unit {0})
  accept_each [] = in_os (modify λ s. record s { accepts = [] })
  accept_each (none ∷ rest) = in_os (modify λ s. record s { accepts = rest })
  accept_each (some new_sd ∷ rest) = do
    number ← in_server (gets λ s. s.current_number_conns)
    if int_eq number (pos max_clients_supported)
        then in_os (do close_sd new_sd; modify λ s. record s { accepts = rest })
        else (do
          in_os (modify λ s. record s { master_set = s.master_set ++ new_sd ∷ [] })
          in_server (modify λ s. record s { current_number_conns = inc_int s.current_number_conns })
          accept_each rest)

  module _ (random : ℕ) (port_dest : KvDest) where
    -- A descriptor that is readable and not the listening one. The result of the handler is not used.
    unfoldable pub read_descriptor : ℕ → Exec Listener (Unit {0})
    read_descriptor sd = do
      msg ← in_os (gets λ s. s.recv sd)
      if length msg == exchange_msg_size
          then (do
            handled ← in_accepting sd (handle_received_connection_data random port_dest msg)
            pure tt)
          else pure tt
      in_os (modify λ s. record s { master_set = remove sd s.master_set })

    -- The loop over the descriptors that are ready, in their order.
    unfoldable pub handle_ready : ℕ → List ℕ → Exec Listener (Unit {0})
    unfolding read_descriptor accept_each
    handle_ready listen_sd [] = pure tt
    handle_ready listen_sd (sd ∷ rest) = do
      if sd == listen_sd then (λ s. accept_each s.os.accepts s) else read_descriptor sd
      handle_ready listen_sd rest

    -- The outer loop, over what select will return.
    unfoldable pub select_loop : ℕ → List (Option (List ℕ)) → Exec Listener (Unit {0})
    unfolding handle_ready
    select_loop listen_sd [] = in_os (modify λ s. record s { selects = [] })
    select_loop listen_sd (none ∷ rest) = in_os (modify λ s. record s { selects = rest })
    select_loop listen_sd (some [] ∷ rest) = in_os (modify λ s. record s { selects = rest })
    select_loop listen_sd (some (sd ∷ sds) ∷ rest) = do
      handle_ready listen_sd (sd ∷ sds)
      select_loop listen_sd rest

    -- The last loop closes what is left in master_set. The result is EXIT_SUCCESS.
    unfoldable pub query_for_connections : ℕ → Exec Listener (Unit {0})
    unfolding select_loop
    query_for_connections listen_sd = do
      λ s. select_loop listen_sd s.os.selects s
      in_os (modify λ s. record s { closed = s.master_set ++ s.closed; master_set = [] })

    -- `true` is EXIT_SUCCESS.
    unfoldable pub accept_new_connection : Exec Listener Bool
    unfolding query_for_connections create_listen_socket
    accept_new_connection = do
      free ← in_server check_available_connection_slots
      if free
          then (do
            sd ← in_os (gets λ s. s.listen_sd)
            created ← elim sd [ some i ↦ pure true | none ↦ in_os create_listen_socket ]
            if created
                then (do
                  listening ← in_os (gets λ s. s.listen_sd)
                  elim listening [
                    | some i ↦ do query_for_connections i; pure true
                    | none ↦ pure false
                  ])
                else pure false)
          else pure false
