-- ===== src/Tests/Clients.antt =====
-- The client's transaction ids, its table of pending requests and a response.
use rdma_rendezvous_key_valu.Prelude.{
  ◌≡◌, ◌≢◌, [], ◌∷◌, none, some, arith, pos, update, int_eq, int_eq_sound, Bool-cases, inl, inr,
  zeroed, splice, c_string, false, refl,
}
use rdma_rendezvous_key_valu.Prelude.Exec.{done}
use rdma_rendezvous_key_valu.Platform.Instance.{test_platform}
use rdma_rendezvous_key_valu.Common.Constants.{get_response}
use rdma_rendezvous_key_valu.Common.Message.{
  Message, ServerHeaders, blank_message, no_rkey, client_blank, server_blank,
}
use rdma_rendezvous_key_valu.Client.State.{Client}
use rdma_rendezvous_key_valu.Client.Completions.Handling.{client_handle_get_response}
use rdma_rendezvous_key_valu.Client.Completions.Response.{
  answered, received, client_handle_get_response_lem,
}
use rdma_rendezvous_key_valu.Client.Tid.{zero_tid, set_client_id}
use rdma_rendezvous_key_valu.Client.Tid.Distinct.{
  call_times_lem, call_times-ne, after_tids, nth_tid,
}
use rdma_rendezvous_key_valu.Client.Requests.{ClientRequest, Queue, blank_request}
use rdma_rendezvous_key_valu.Client.Requests.Refine.{
  add, remove, apply_ops, run_ops, Represents, Refines, run_ops-Refines,
}
use rdma_rendezvous_key_valu.Client.Requests.Table.{IsTable, request_of}

call_times-ne_example : nth_tid 2 (set_client_id 1 zero_tid) ≢ nth_tid 4 (set_client_id 3 zero_tid)
call_times-ne_example =
    call_times-ne 2 4 1 3 zero_tid zero_tid (after_tids 3 (set_client_id 1 zero_tid))
      (after_tids 5 (set_client_id 3 zero_tid)) (nth_tid 2 (set_client_id 1 zero_tid))
      (nth_tid 4 (set_client_id 3 zero_tid)) (omega arith) (omega arith) (omega arith)
      (call_times_lem 2 (set_client_id 1 zero_tid)) (call_times_lem 4 (set_client_id 3 zero_tid))

abbrev pub fresh : ClientRequest
fresh = record blank_request { tid = pos 5; key = some [] }

-- One request, with the id 5, at the address 1.
abbrev one : Queue
one = record {
  internal_q = (pos 5, 1) ∷ [];
  requests = update (λ p. none) 1 (some fresh);
  calls = 2;
}

one-IsTable : IsTable one
one-IsTable = record {
  live = λ k p h. elim (Bool-cases (int_eq (pos 5) k)) [
    | inl own ↦ (fresh, ground (arith, own, h), int_eq_sound (pos 5) k own)
    | inr other ↦ ground (arith, other, h)
  ];
  old = λ k p h. ground (arith, h);
}

-- "ab" and its terminator.
abbrev pub ab : Message ServerHeaders
ab = record {
  headers = record {
    response = get_response;
    tid = 5;
    keylen = 1;
    buflen = 3;
    rkey_info = no_rkey;
  };
  buffer = splice zeroed 0 (97 ∷ 98 ∷ 0 ∷ []);
}

abbrev pub client : Client
client = record {
  ctx = record {
    in_buf = λ i. blank_message;
    out_buf = λ i. blank_message;
    max_recv_buff = pos 100;
    curr_recv_buff = pos 100;
    last_used_recv_buff = 0;
    last_used_send_buff = 0;
    in_use_recv = λ i. false;
    in_use_send = λ i. false;
    posted = [];
  };
  queue = one;
  last_used_tid = zero_tid;
  immediate_shutdown = false;
  completions = [];
  qp_num = 40;
  calls = 0;
}

pub read_ab : c_string 3 ab.buffer ≡ some (97 ∷ 98 ∷ [])
unfolding c_string
read_ab = refl

client_handle_get_response_lem_example :
    (client_handle_get_response ab client ≡ done (tt, answered client ab 1 fresh))
    × (c_string (received client ab).len (received client ab).byte ≡ some (97 ∷ 98 ∷ []))
client_handle_get_response_lem_example =
    client_handle_get_response_lem ab 1 3 fresh (97 ∷ 98 ∷ []) client refl refl refl (omega arith)
      (omega arith) (omega arith) read_ab

one-Represents : Represents one (λ tid. request_of tid one)
one-Represents = record { table = one-IsTable; same = λ tid. refl }

-- The second addition of 6 ends the process.
run_ops-Refines_example :
    Refines
      (run_ops (add 6 ∷ remove 5 ∷ add 6 ∷ []) one)
      (apply_ops (add 6 ∷ remove 5 ∷ add 6 ∷ []) (λ tid. request_of tid one))
run_ops-Refines_example =
    run_ops-Refines (add 6 ∷ remove 5 ∷ add 6 ∷ []) one (λ tid. request_of tid one) (λ n. refl)
      one-Represents
