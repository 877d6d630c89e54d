-- ===== src/Client/Teardown.antt =====
-- The end of client.c: send_client_shutdown_message, client_close_ctx as far as its queue pair goes,
-- kv_close and client_loop. What client_close_ctx frees behind the queue pair belongs to libibverbs
-- or to the context, which nothing reads afterwards.
use rdma_rendezvous_key_valu.Prelude.{
  ℕ, zero, suc, Bool, true, false, List, [], Option, none, some, if◌then◌else◌, ltb,
}
use rdma_rendezvous_key_valu.Prelude.Exec.{done, stuck, Exec, pure, gets, ◌>>=◌, ◌>>◌}
use rdma_rendezvous_key_valu.Platform.{Platform}
use rdma_rendezvous_key_valu.Common.Constants.{client_header_len, client_shutdown}
use rdma_rendezvous_key_valu.Common.Message.{ClientHeaders}
use rdma_rendezvous_key_valu.Common.Buffers.{get_free_send_idx, acquire_send_buffer}
use rdma_rendezvous_key_valu.Client.Requests.{num_pending_requests, destroy_pending_request_queue}
use rdma_rendezvous_key_valu.Client.State.{Client, in_ctx, in_queue}
use rdma_rendezvous_key_valu.Client.Completions.{write_request, client_post_send}
use rdma_rendezvous_key_valu.Client.Api.{client_wait_completions}
use rdma_rendezvous_key_valu.Client.Input.{kv_test_get_set_from_file}

abbrev pub shutdown_headers : ClientHeaders
shutdown_headers = record { tid = 0; opcode = client_shutdown; keylen = 0; buflen = 0 }

module _ ⦃x : Platform⦄ (rounds : ℕ) where
  -- `true` is the result 0.
  unfoldable pub send_client_shutdown_message : Exec Client Bool
  send_client_shutdown_message = do
    buff_id ← in_ctx get_free_send_idx
    elim buff_id [
      | none ↦ pure false
      | some i ↦ do
        in_ctx (acquire_send_buffer i)
        write_request i shutdown_headers []
        sent ← client_post_send client_header_len i
        if sent
            then (do
              shutdown ← gets λ s. s.immediate_shutdown
              if shutdown then pure true else do client_wait_completions rounds 1; pure true)
            else pure false
    ]

  -- ibv_query_qp, and whether the queue pair is ready to send
  unfoldable pub is_ready : Exec Client Bool
  is_ready s = done (
    elim (x.ibv_query_qp s.calls s.qp_num) [ none ↦ false | some ready ↦ ready ],
    record s { calls = suc s.calls },
  )

  -- The result of ibv_destroy_qp is printed only.
  unfoldable pub client_close_ctx : Exec Client (Unit {0})
  unfolding send_client_shutdown_message is_ready
  client_close_ctx = do
    ready ← is_ready
    if ready then (do send_client_shutdown_message; pure tt) else pure tt
    λ s. done (tt, record s { calls = suc s.calls })

  -- The loop on the number of pending requests; one of them is the bogus one.
  unfoldable pub wait_remaining : ℕ → Exec Client (Unit {0})
  wait_remaining zero s = stuck
  wait_remaining (suc left) s =
      (do
        remaining_requests ← gets λ s. num_pending_requests s.queue
        shutdown ← gets λ s. s.immediate_shutdown
        if ltb 1 remaining_requests
            then (if shutdown
                then pure tt
                else do client_wait_completions rounds 1; wait_remaining left)
            else pure tt)
        s

  unfoldable pub kv_close : Exec Client (Unit {0})
  unfolding wait_remaining client_close_ctx
  kv_close = do wait_remaining rounds; in_queue destroy_pending_request_queue; client_close_ctx

  unfoldable pub repeat_jobs : ℕ → Option (List ℕ) → Exec Client (Unit {0})
  repeat_jobs zero file = pure tt
  repeat_jobs (suc n) file = do kv_test_get_set_from_file rounds file; repeat_jobs n file

  -- With the connection made. `none` is a file that is not regular; `false` is EXIT_FAILURE.
  unfoldable pub client_loop : Option (List ℕ) → Exec Client Bool
  unfolding repeat_jobs kv_close
  client_loop none = pure false
  client_loop (some file) = do repeat_jobs 10 (some file); kv_close; pure true
