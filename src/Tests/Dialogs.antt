-- ===== src/Tests/Dialogs.antt =====
-- A server and its first client on one socket.
use rdma_rendezvous_key_valu.Prelude.{
  ℕ, ◌≡◌, ◌<◌, ◌%◌, refl, true, false, List, [], ◌∷◌, ◌++◌, some, arith, pos, Bytes, take, drop,
  length, int_ltb,
}
use rdma_rendezvous_key_valu.Prelude.Exec.{Outcome, done}
use rdma_rendezvous_key_valu.Platform.Instance.{test_platform}
use rdma_rendezvous_key_valu.Common.Constants.{max_recv_buffs}
use rdma_rendezvous_key_valu.Common.Connection.{KvDest}
use rdma_rendezvous_key_valu.Common.Buffers.{scan, get_free_recv_idx, acquire_receive_buffer}
use rdma_rendezvous_key_valu.Server.State.{Server}
use rdma_rendezvous_key_valu.Server.Connections.{
  add_new_connection, server_post_recv_buffers, post_rounds, server_post_recv, find_free_slot,
}
use mathlib.Core.List.{append-nil}
use rdma_rendezvous_key_valu.Client.Tid.{zero_tid}
use rdma_rendezvous_key_valu.Handshake.{client_message, server_message}
use rdma_rendezvous_key_valu.Handshake.Agree.{FitsFormat}
use rdma_rendezvous_key_valu.Handshake.Sockets.{Socket}
use rdma_rendezvous_key_valu.Handshake.Dial.{done_message, Dialer, client_exch_dest}
use rdma_rendezvous_key_valu.Handshake.Dial.Answered.{
  IsDialed, length-server_message, client_exch_dest-IsDialed,
}
use rdma_rendezvous_key_valu.Handshake.Accept.{Accepting, handle_received_connection_data}
use rdma_rendezvous_key_valu.Handshake.Accept.Connected.{
  after_verbs, dest_of, handle_received_connection_data_lem,
}
use rdma_rendezvous_key_valu.Tests.Entries.{entry}
use rdma_rendezvous_key_valu.Tests.Handlers.{server}

abbrev state_of : Outcome (ℕ × Server) → Server
state_of (done (n, s)) = s
state_of _ = server entry

abbrev added : Server
added = state_of (add_new_connection 40 (pos max_recv_buffs) (pos 0) (after_verbs (server entry)))

add_40 :
    add_new_connection 40 (pos max_recv_buffs) (pos 0) (after_verbs (server entry))
    ≡ done (0, added)
unfolding add_new_connection find_free_slot
add_40 = refl

abbrev stocked : Server
stocked = state_of (server_post_recv_buffers 0 added)

post_all : server_post_recv_buffers 0 added ≡ done (1000, stocked)
unfolding server_post_recv_buffers post_rounds server_post_recv get_free_recv_idx
    acquire_receive_buffer scan add_new_connection find_free_slot
post_all = refl

enough : int_ltb (pos 1000) (stocked.connections 0).max_recv_buff ≡ false
unfolding server_post_recv_buffers post_rounds server_post_recv get_free_recv_idx
    acquire_receive_buffer scan add_new_connection find_free_slot
enough = refl

abbrev counting : Bytes
counting k = k % 256

abbrev client_dest : KvDest
client_dest = record { lid = 17; qpn = 300; psn = 70000; gid = counting }

abbrev port : KvDest
port = record { lid = 9; qpn = 0; psn = 0; gid = counting }

client_dest-FitsFormat : FitsFormat client_dest
client_dest-FitsFormat = record {
  lid = omega arith;
  qpn = omega arith;
  psn = omega arith;
  gid = λ k h. omega arith;
}

port-FitsFormat : FitsFormat (dest_of 40 123 port)
port-FitsFormat = record {
  lid = omega arith;
  qpn = omega arith;
  psn = omega arith;
  gid = λ k h. omega arith;
}

-- "done" in two pieces.
abbrev confirmed : Socket
confirmed = record {
  pieces = some (take 2 done_message) ∷ some (drop 2 done_message) ∷ [];
  accepts = λ n. true;
  writes = 0;
  written = [];
  open_end = true;
}

handle_received_connection_data_lem_example :
    (t : Accepting) × (handle_received_connection_data 123 port
        (client_message client_dest ++ 0 ∷ [])
        (record { server = server entry; socket = confirmed })
      ≡ done (true, t))
    × (t.socket.written ≡ server_message 0 (dest_of 40 123 port) ++ 0 ∷ [])
    × (t.socket.open_end ≡ false)
    × ((t.server.connections 0).curr_recv_buff ≡ pos 1000)
handle_received_connection_data_lem_example =
    handle_received_connection_data_lem 40 123 0 1000 port client_dest
      (take 2 done_message ∷ drop 2 done_message ∷ []) []
      (record { server = server entry; socket = confirmed }) added stocked refl (λ n. refl)
      client_dest-FitsFormat port-FitsFormat (omega arith) add_40 refl
      (omega arith, (omega arith, tt)) refl refl post_all enough

abbrev answer : List ℕ
answer = server_message 0 (dest_of 40 123 port) ++ 0 ∷ []

-- The answer, whole, and a byte behind it.
abbrev dialer : Dialer
dialer = record {
  socket = record confirmed { pieces = some answer ∷ some (7 ∷ []) ∷ [] };
  last_used_tid = zero_tid;
}

length-answer : 0 < length answer
length-answer =
    omega (arith, length-server_message 0 (dest_of 40 123 port) (omega arith) port-FitsFormat)

client_exch_dest-IsDialed_example :
    (e : KvDest) × (t : Dialer) × (client_exch_dest true client_dest dialer ≡ done (some e, t))
    × IsDialed 0 client_dest (dest_of 40 123 port) e (some (7 ∷ []) ∷ []) dialer t
client_exch_dest-IsDialed_example =
    client_exch_dest-IsDialed 0 client_dest (dest_of 40 123 port) (answer ∷ []) (some (7 ∷ []) ∷ [])
      dialer (omega arith) client_dest-FitsFormat port-FitsFormat (λ n. refl) (length-answer, tt)
      (append-nil answer) refl
