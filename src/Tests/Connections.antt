-- ===== src/Tests/Connections.antt =====
-- A connection that goes away, and a request with an empty key.
use rdma_rendezvous_key_valu.Prelude.{
  ◌≡◌, ◌==◌, refl, true, some, if◌then◌else◌, pos, zeroed, c_string, [],
}
use rdma_rendezvous_key_valu.Prelude.Exec.{done, exited, crash}
use rdma_rendezvous_key_valu.Platform.Instance.{test_platform}
use rdma_rendezvous_key_valu.Common.Constants.{get_request}
use rdma_rendezvous_key_valu.Common.Message.{ClientHeaders}
use rdma_rendezvous_key_valu.Server.Requests.{invalidate_requests_by_qp, invalidate_each}
use rdma_rendezvous_key_valu.Server.State.{Connection, Server, no_connection}
use rdma_rendezvous_key_valu.Server.Connections.{get_connection, find_connection, remove_connection}
use rdma_rendezvous_key_valu.Server.Connections.Release.{IsRemoved, remove_connection_lem}
use rdma_rendezvous_key_valu.Server.Handlers.{handle_set_request, handle_get_request}
use rdma_rendezvous_key_valu.Server.Handlers.Empty.{empty_key_ends}
use rdma_rendezvous_key_valu.Tests.Entries.{entry}
use rdma_rendezvous_key_valu.Tests.Handlers.{server, info}

-- The queue pair 40 in the slot 1, which has posted the buffer 7.
abbrev connection : Connection
connection = record no_connection { qp = some 40; buff_in_use = λ i. i == 7 }

abbrev connected : Server
connected = record (server entry) {
  connections = λ i. if i == 1 then connection else no_connection;
  current_number_conns = pos 1;
}

found_40 : get_connection 40 connected ≡ done (some 1, connected)
unfolding get_connection find_connection
found_40 = refl

nothing_pending : invalidate_requests_by_qp 40 connected.store ≡ done (tt, connected.store)
unfolding invalidate_requests_by_qp invalidate_each
nothing_pending = refl

remove_connection_lem_example :
    (t : Server) × (remove_connection 40 connected ≡ done (true, t))
    × IsRemoved 1 connected connected.store t
remove_connection_lem_example =
    remove_connection_lem 40 1 40 connected connected.store found_40 refl nothing_pending refl

abbrev headers : ClientHeaders
headers = record { opcode = get_request; tid = 8; keylen = 0; buflen = 0 }

no_key : c_string 6 zeroed ≡ some []
unfolding c_string
no_key = refl

empty_key_ends_example :
    (handle_set_request 1 crash 40 headers 6 zeroed info (server entry) ≡ exited 1)
    × (handle_get_request 1 crash 40 headers 6 zeroed info (server entry) ≡ exited 1)
empty_key_ends_example = empty_key_ends 1 crash 40 headers 6 zeroed info (server entry) no_key refl
