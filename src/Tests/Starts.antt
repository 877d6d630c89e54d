-- ===== src/Tests/Starts.antt =====
-- A server that starts without a device, clients that it loses, and the set-up of a client.
use rdma_rendezvous_key_valu.Prelude.{
  ◌≡◌, ◌⊎◌, refl, inr, true, false, [], ◌∷◌, none, some, arith, zeroed, ltb,
}
use rdma_rendezvous_key_valu.Prelude.Exec.{done, fault}
use rdma_rendezvous_key_valu.Platform.Instance.{test_platform}
use rdma_rendezvous_key_valu.Common.Connection.{KvDest}
use rdma_rendezvous_key_valu.Common.Objects.{Verbs, no_objects}
use rdma_rendezvous_key_valu.Common.Objects.Setup.{server_init_ctx, client_init_ctx}
use rdma_rendezvous_key_valu.Common.Objects.Release.{release_server, release_client}
use rdma_rendezvous_key_valu.Common.Objects.Balance.{
  Leaks, StillThere, Balanced, server_init_ctx-Balanced, client_init_ctx-Balanced,
}
use rdma_rendezvous_key_valu.Handshake.Sockets.{Socket}
use rdma_rendezvous_key_valu.Handshake.Listen.{
  Listening, Listener, create_listen_socket, accept_new_connection,
}
use rdma_rendezvous_key_valu.Handshake.Listen.Lost.{
  Keeps, create_listen_socket-Keeps, waiting_clients, after_waiting, accept_new_connection-lost,
}
use rdma_rendezvous_key_valu.Main.{Process, init_server_connection}
use rdma_rendezvous_key_valu.Main.Open.{Answers}
use rdma_rendezvous_key_valu.Main.Start.{starting, init_server_connection-no_device}
use rdma_rendezvous_key_valu.Tests.Entries.{entry}
use rdma_rendezvous_key_valu.Tests.Handlers.{server}

-- Every call succeeds.
instance abbrev test_verbs : Verbs
test_verbs = record {
  calloc = λ calls. true;
  ibv_open_device = λ calls. true;
  ibv_create_comp_channel = λ calls. true;
  ibv_alloc_pd = λ calls. true;
  ibv_reg_mr = λ calls. true;
  ibv_create_cq = λ calls. true;
  ibv_create_qp = λ calls. true;
  ibv_modify_qp = λ calls. true;
  ibv_release = λ calls. true;
}

server_init_ctx-Balanced_example :
    Leaks (server_init_ctx 8 4 2 no_objects)
    ⊎ Balanced release_server true (server_init_ctx 8 4 2 no_objects)
server_init_ctx-Balanced_example = server_init_ctx-Balanced 8 4 2 (λ c. refl)

client_init_ctx-Balanced_example :
    Leaks (client_init_ctx 8 4 2 true no_objects)
    ⊎ (StillThere 10 12 (client_init_ctx 8 4 2 true no_objects)
        ⊎ Balanced release_client tt (client_init_ctx 8 4 2 true no_objects))
client_init_ctx-Balanced_example = client_init_ctx-Balanced 8 4 2 true (λ c. refl)

abbrev socket : Socket
socket = record { pieces = []; accepts = λ n. true; writes = 0; written = []; open_end = true }

-- All calls of the system succeed up to the eighth, which is that of listen.
abbrev os : Listening
os = record {
  listen_sd = none;
  master_set = [];
  closed = [];
  calls = 0;
  socket = λ calls. some 3;
  succeeds = λ call calls. ltb calls 8;
  selects = [];
  accepts = [];
  recv = λ sd. [];
  sockets = λ sd. socket;
}

create_listen_socket-Keeps_example : Keeps 3 [] (create_listen_socket os)
create_listen_socket-Keeps_example = create_listen_socket-Keeps os 3 refl refl refl refl refl

abbrev listener : Listener
listener = record { os = os; server = server entry }

abbrev dest : KvDest
dest = record { lid = 1; qpn = 0; psn = 0; gid = zeroed }

accept_new_connection-lost_example :
    (accept_new_connection 0 dest (waiting_clients 0 dest listener 3 1 (5 ∷ 6 ∷ 7 ∷ []))
      ≡ done (true, after_waiting 0 dest listener 3 1 (5 ∷ 6 ∷ 7 ∷ [])))
    × (accept_new_connection 0 dest (after_waiting 0 dest listener 3 1 (5 ∷ 6 ∷ 7 ∷ []))
        ≡ done (false, after_waiting 0 dest listener 3 1 (5 ∷ 6 ∷ 7 ∷ [])))
accept_new_connection-lost_example =
    accept_new_connection-lost 0 dest listener 3 1 (5 ∷ 6 ∷ 7 ∷ []) (omega arith) refl

abbrev process : Process
process = record { listener = listener; objects = no_objects; dev_list = false }

init_server_connection-no_device_example :
    init_server_connection 9 (some false) none (starting process) ≡ fault
init_server_connection-no_device_example =
    init_server_connection-no_device 9 (some false) none process (inr refl)

abbrev answers : Answers
answers = record { devices = none; port = none; random = 0; allocated = true; attempts = [] }
