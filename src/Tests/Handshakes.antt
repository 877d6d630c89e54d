-- ===== src/Tests/Handshakes.antt =====
-- The messages of the handshake, between a server and its first two clients.
use rdma_rendezvous_key_valu.Prelude.{◌+◌, ◌%◌, ◌≡◌, ◌≢◌, some, arith, Bytes, length}
use rdma_rendezvous_key_valu.Common.Constants.{exchange_msg_size}
use rdma_rendezvous_key_valu.Common.Connection.{KvDest}
use rdma_rendezvous_key_valu.Client.Tid.{zero_tid, set_client_id}
use rdma_rendezvous_key_valu.Client.Tid.Distinct.{call_times_lem, after_tids, nth_tid}
use rdma_rendezvous_key_valu.Handshake.{
  client_message, read_client_message, server_message, read_server_message,
}
use rdma_rendezvous_key_valu.Handshake.Agree.{
  FitsFormat, SameDest, read_client_message-client_message, read_server_message-server_message,
  connected_tids-ne,
}

abbrev counting : Bytes
counting k = k % 256

abbrev dest : KvDest
dest = record { lid = 17; qpn = 300; psn = 70000; gid = counting }

dest-FitsFormat : FitsFormat dest
dest-FitsFormat = record {
  lid = omega arith;
  qpn = omega arith;
  psn = omega arith;
  gid = λ k h. omega arith;
}

read_client_message-client_message_example :
    (length (client_message dest) + 1 ≡ exchange_msg_size)
    × ((e : KvDest) × (read_client_message (client_message dest) ≡ some e) × SameDest dest e)
read_client_message-client_message_example = read_client_message-client_message dest dest-FitsFormat

read_server_message-server_message_example :
    (e : KvDest) × (read_server_message (server_message 3 dest) ≡ some (4, e)) × SameDest dest e
read_server_message-server_message_example =
    read_server_message-server_message 3 dest (omega arith) dest-FitsFormat

connected_tids-ne_example :
    nth_tid 2 (set_client_id 1 zero_tid) ≢ nth_tid 4 (set_client_id 2 zero_tid)
connected_tids-ne_example =
    connected_tids-ne 0 1 dest dest
      (read_server_message-server_message 0 dest (omega arith) dest-FitsFormat).0
      (read_server_message-server_message 1 dest (omega arith) dest-FitsFormat).0 1 2 2 4 zero_tid
      zero_tid (after_tids 3 (set_client_id 1 zero_tid)) (after_tids 5 (set_client_id 2 zero_tid))
      (nth_tid 2 (set_client_id 1 zero_tid)) (nth_tid 4 (set_client_id 2 zero_tid)) (omega arith)
      (omega arith) (omega arith) dest-FitsFormat dest-FitsFormat
      (read_server_message-server_message 0 dest (omega arith) dest-FitsFormat).1
      (read_server_message-server_message 1 dest (omega arith) dest-FitsFormat).1
      (call_times_lem 2 (set_client_id 1 zero_tid)) (call_times_lem 4 (set_client_id 2 zero_tid))
