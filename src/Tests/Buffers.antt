-- ===== src/Tests/Buffers.antt =====
-- The searches for a free buffer, on arrays with few buffers in use.
use rdma_rendezvous_key_valu.Prelude.{
  ℕ, ◌==◌, ◌≡◌, ◌≢◌, refl, Bool, true, false, [], some, arith, pos, update, leb,
}
use rdma_rendezvous_key_valu.Prelude.Exec.{done}
use rdma_rendezvous_key_valu.Common.Message.{
  ClientHeaders, ServerHeaders, blank_message, client_blank, server_blank,
}
use rdma_rendezvous_key_valu.Common.Context.{KvContext}
use rdma_rendezvous_key_valu.Common.Buffers.{scan, get_free_send_idx, acquire_send_buffer}
use rdma_rendezvous_key_valu.Common.Buffers.Scan.{FindsFree, scan-FindsFree}
use rdma_rendezvous_key_valu.Common.Buffers.Free.{acquired_once}

-- All buffers but 0 are in use.
abbrev in_use : ℕ → Bool
in_use i = leb 1 i

abbrev start : KvContext ClientHeaders ServerHeaders
start = record {
  in_buf = λ i. blank_message;
  out_buf = λ i. blank_message;
  max_recv_buff = pos 0;
  curr_recv_buff = pos 0;
  last_used_recv_buff = 3999;
  last_used_send_buff = 999;
  in_use_recv = in_use;
  in_use_send = in_use;
  posted = [];
}

abbrev idle : KvContext ClientHeaders ServerHeaders
idle = record start { in_use_send = λ i. i == 2; last_used_send_buff = 2 }

abbrev taken : KvContext ClientHeaders ServerHeaders
taken = record idle { last_used_send_buff = 3; in_use_send = update idle.in_use_send 3 true }

scan-FindsFree_example : FindsFree in_use 3 (scan 3 in_use 3 2 2)
scan-FindsFree_example = scan-FindsFree in_use 3 2 (omega arith)

search_idle : get_free_send_idx idle ≡ done (some 3, record idle { last_used_send_buff = 3 })
unfolding get_free_send_idx scan
search_idle = refl

search_taken : get_free_send_idx taken ≡ done (some 4, record taken { last_used_send_buff = 4 })
unfolding get_free_send_idx scan
search_taken = refl

acquire_idle : acquire_send_buffer 3 (record idle { last_used_send_buff = 3 }) ≡ done (tt, taken)
unfolding acquire_send_buffer
acquire_idle = refl

acquired_once_example : (idle.in_use_send 3 ≡ false) × ◌≢◌ {A = ℕ} 3 4
acquired_once_example =
    acquired_once idle (record idle { last_used_send_buff = 3 }) taken taken
      (record taken { last_used_send_buff = 4 }) 3 4 (omega arith) (omega arith) search_idle
      acquire_idle (λ k h. h) search_taken
