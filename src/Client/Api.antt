-- ===== src/Client/Api.antt =====
-- client_wait_completions, kv_get and kv_set of client.c. A loop that waits takes
-- `rounds`: the number of polls that it may make. A string is assumed shorter than 2^31, the range
-- of the `int` that holds its length.
pub mod Set
pub mod Wait
pub mod Get
use rdma_rendezvous_key_valu.Prelude.{
  ℕ, zero, suc, ◌+◌, ◌-◌, ◌%◌, Bool, true, false, List, [], ◌∷◌, ◌++◌, Option, none, some, ltb, leb,
  if◌then◌else◌, update, length, take, splice, read_bytes, pos,
}
use rdma_rendezvous_key_valu.Prelude.Exec.{
  done, stuck, Exec, pure, exit, gets, modify, deref, assert, ◌>>=◌, ◌>>◌,
}
use rdma_rendezvous_key_valu.Platform.{Platform}
use rdma_rendezvous_key_valu.Common.Constants.{
  client_header_len, client_request_payload_len, wc_batch, recv_wrid, rdma_read_wrid, set_request,
  get_request, rdma_set_request,
}
use rdma_rendezvous_key_valu.Common.Message.{ClientHeaders}
use rdma_rendezvous_key_valu.Common.Buffers.{get_free_send_idx, acquire_send_buffer}
use rdma_rendezvous_key_valu.Server.Db.{Buffer}
use rdma_rendezvous_key_valu.Client.Tid.{get_new_tid}
use rdma_rendezvous_key_valu.Client.Requests.{
  Queue, load, store, get_client_pending_request, add_client_pending_request,
  remove_client_pending_request, num_pending_requests,
}
use rdma_rendezvous_key_valu.Client.State.{Wc, Client, in_ctx, in_queue, in_tid}
use rdma_rendezvous_key_valu.Client.Completions.{client_post_send, write_request, ibv_reg_mr}
use rdma_rendezvous_key_valu.Client.Completions.Handling.{handle_completions}

module _ ⦃x : Platform⦄ where
  -- The bytes that an RDMA read has brought, in the buffer of the request with that id.
  abbrev put_read : Option Buffer → Wc → Option Buffer
  put_read none wc = none
  put_read (some b) wc =
      some (record b { byte = splice b.byte 0 (read_bytes wc.read_data (b.len - 1)) })

  abbrev deposit_read : Option ℕ → Wc → Queue → Queue
  deposit_read none wc q = q
  deposit_read (some p) wc q = elim (q.requests p) [
    | none ↦ q
    | some r ↦ record q {
      requests = update q.requests p (some (record r { in_buf = put_read r.in_buf wc }));
    }
  ]

  abbrev deposit_one : Wc → Client → Client
  deposit_one wc s = elim wc.wr_id.wr_type [
    | recv_wrid ↦ record s {
      ctx = record s.ctx { in_buf = update s.ctx.in_buf wc.wr_id.wr_id wc.message };
    }
    | rdma_read_wrid ↦ record s {
      queue =
          deposit_read (x.tids.find (pos (wc.wr_id.wr_id % 65536)) s.queue.internal_q) wc s.queue;
    }
    | _ ↦ s
  ]

  -- What the adapter has written into memory before it reports the completions.
  unfoldable pub deposit : List Wc → Client → Client
  deposit [] s = s
  deposit (wc ∷ rest) s = deposit rest (deposit_one wc s)

  abbrev poll : List (Option (List Wc)) → Exec Client (Option (List Wc))
  poll [] s = done (some [], s)
  poll (none ∷ rest) s = done (none, record s { completions = rest })
  poll (some wc ∷ rest) s =
      let batch = take wc_batch wc in
      done (some batch, deposit batch (record s { completions = rest }))

  -- ibv_poll_cq: at most WC_BATCH completions, and none once the script is at its end
  unfoldable pub ibv_poll_cq : Exec Client (Option (List Wc))
  unfolding deposit
  ibv_poll_cq s = poll s.completions s

  -- The `while` loop, with `count` completions handled. `false` is the result 1.
  unfoldable pub wait_loop : ℕ → ℕ → ℕ → Exec Client Bool
  unfolding ibv_poll_cq
  wait_loop zero iters count = if ltb count iters then (λ s. stuck) else pure true
  wait_loop (suc rounds) iters count =
      if ltb count iters
      then (do
        shutdown ← gets λ s. s.immediate_shutdown
        if shutdown then exit 1 else do
          polled ← ibv_poll_cq
          elim polled [
            | none ↦ do
              modify λ s. record s { immediate_shutdown = true }
              wait_loop rounds iters count
            | some wc ↦ do
              handled ← handle_completions wc count
              elim handled [ none ↦ pure false | some n ↦ wait_loop rounds iters n ]
          ])
      else pure true

  module _ (rounds : ℕ) where
    unfoldable pub client_wait_completions : ℕ → Exec Client Bool
    client_wait_completions iters = wait_loop rounds iters 0

    -- The loop of kv_get and kv_set over get_free_send_idx.
    unfoldable pub wait_send_idx : ℕ → Exec Client ℕ
    wait_send_idx zero s = stuck
    wait_send_idx (suc left) s =
        (do
          buff_idx ← in_ctx get_free_send_idx
          elim buff_idx [
            | some i ↦ pure i
            | none ↦ do client_wait_completions 1; wait_send_idx left
          ])
          s

    -- memcpy of the header, and strcpy of the strings into the payload, each with its terminator
    unfoldable pub write_strings : ℕ → ClientHeaders → List ℕ → Exec Client (Unit {0})
    write_strings buff_idx headers bytes = do
      assert (leb (length bytes) client_request_payload_len)
      write_request buff_idx headers bytes

    -- strncpy(pending_req->key, key, keylen) into its CLIENT_REQUEST_PAYLOAD_LEN bytes
    unfoldable pub register_key : ℕ → List ℕ → Exec Queue ℕ
    register_key tid key = do
      add_client_pending_request tid
      found ← get_client_pending_request tid
      p ← deref found
      pending_req ← load p
      old ← deref pending_req.key
      assert (leb (length key) client_request_payload_len)
      store p (record pending_req { is_pending = true; key = some key })
      pure p

    -- The loop of kv_get on is_pending.
    unfoldable pub wait_reply : ℕ → ℕ → Exec Client (Unit {0})
    wait_reply zero p s = stuck
    wait_reply (suc left) p s =
        (do
          pending_req ← in_queue (load p)
          if pending_req.is_pending
              then (do client_wait_completions 1; wait_reply left p)
              else pure tt)
          s

    -- `none` is the result -1; else the value is a pointer, NULL inside.
    unfoldable pub kv_get : List ℕ → Exec Client (Option (Option Buffer))
    unfolding wait_send_idx write_strings register_key wait_reply
    kv_get key = do
      buff_idx ← wait_send_idx rounds
      in_ctx (acquire_send_buffer buff_idx)
      tid ← in_tid get_new_tid
      write_strings buff_idx
          (record { tid = tid; opcode = get_request; keylen = length key; buflen = 0 })
          (key ++ 0 ∷ [])
      p ← in_queue (register_key tid key)
      pending_req ← in_queue (load p)
      in_queue (store p (record pending_req { opcode = get_request }))
      sent ← client_post_send (client_header_len + length key + 1) buff_idx
      if sent
          then (do
            wait_reply rounds p
            after ← in_queue (load p)
            in_queue (store p (record after { in_buf = none }))
            in_queue (remove_client_pending_request tid)
            pure (some after.in_buf))
          else pure none

    -- The loop of kv_set on the number of pending requests.
    unfoldable pub wait_pending : ℕ → Exec Client (Unit {0})
    wait_pending zero s = stuck
    wait_pending (suc left) s =
        (do
          remaining_requests ← gets λ s. num_pending_requests s.queue
          if leb 250 remaining_requests
              then (do client_wait_completions 200; wait_pending left)
              else pure tt)
          s

    -- The branch of kv_set for a value that does not fit the request.
    unfoldable pub register_write : ℕ → List ℕ → List ℕ → Exec Client (Unit {0})
    unfolding register_key
    register_write tid key value = in_queue do
      p ← register_key tid key
      pending_req ← load p
      -- the registered memory is the caller's, named by the call that registers it
      calls ← gets λ q. q.calls
      mr ← ibv_reg_mr (suc calls) (length value + 1)
      store p (record pending_req {
        out_size = length value;
        out_buf = some value;
        mr = mr;
        opcode = rdma_set_request;
      })

    -- `true` is the result 0.
    unfoldable pub kv_set : List ℕ → List ℕ → Exec Client Bool
    unfolding wait_send_idx wait_pending write_strings register_write
    kv_set key value = do
      buff_idx ← wait_send_idx rounds
      wait_pending rounds
      tid ← in_tid get_new_tid
      let request : ClientHeaders = record {
        tid = tid;
        opcode = set_request;
        keylen = length key;
        buflen = length value;
      }
      in_ctx (acquire_send_buffer buff_idx)
      let buffer_size = length key + 1
      if leb (buffer_size + length value + 1) client_request_payload_len
          then (do
            write_strings buff_idx request (key ++ (0 ∷ (value ++ 0 ∷ [])))
            client_post_send (client_header_len + buffer_size + length value + 1) buff_idx)
          else (do
            write_strings buff_idx request (key ++ 0 ∷ [])
            register_write tid key value
            client_post_send (client_header_len + buffer_size) buff_idx)
