-- ===== src/Server/Handlers.antt =====
-- The handling of requests by server.c. A request's bytes are those behind its header; what lies
-- past the `room` readable bytes is a fault. teardown_server_connection ends the process; its
-- clean-up before that is in Teardown.antt and not part of the exit here. The function that waits
-- for completions calls these handlers in turn: it is the parameter `wait`, which
-- Server/Completions.antt fills, and `rounds` bounds how often a handler waits for a send buffer.
pub mod Set
pub mod Held
pub mod Puts
pub mod Get
pub mod Empty
pub mod Released
pub mod Offer
pub mod Space
use rdma_rendezvous_key_valu.Prelude.{
  ℕ, zero, suc, ◌+◌, ◌-◌, ◌%◌, ◌^◌, Bool, true, false, not, ◌||◌, List, [], ◌∷◌, Option, none, some,
  ltb, leb, ◌==◌, if◌then◌else◌, update, Bytes, splice, advance, read_bytes, c_string, ℤ, pos,
  dec_int, add_int, int_leb, int_ltb,
}
use rdma_rendezvous_key_valu.Prelude.Exec.{
  Outcome, done, exited, fault, stuck, Exec, pure, exit, crash, gets, modify, deref, assert, ◌>>=◌,
  ◌>>◌,
}
use rdma_rendezvous_key_valu.Platform.{Platform}
use rdma_rendezvous_key_valu.Common.Constants.{
  max_clients_supported, client_request_payload_len, client_header_len, server_header_len,
  server_response_payload_len, buffer_size, send_wrid, set_request, get_request, rdma_fin_client,
  client_shutdown, zero_response, get_response, rdma_rkey_set, rdma_rkey_get, server_shutdown,
}
use rdma_rendezvous_key_valu.Common.Message.{
  Message, ClientHeaders, ServerHeaders, RkeyInfo, WrIdInfo, no_rkey, client_blank, server_blank,
}
use rdma_rendezvous_key_valu.Common.Context.{KvContext, send_wr}
use rdma_rendezvous_key_valu.Common.Buffers.{
  get_free_send_idx, acquire_send_buffer, get_recv_buffer,
}
use rdma_rendezvous_key_valu.Server.Db.{
  u32, Buffer, Mr, DbEntry, Db, Entry, calloc, load, store, ibv_reg_mr,
}
use rdma_rendezvous_key_valu.Server.Pool.{in_rest}
use rdma_rendezvous_key_valu.Server.Db.Items.{check_key, db_get, db_insert, db_reallocate_item}
use rdma_rendezvous_key_valu.Server.Db.RwLocks.{db_entry_lock_wr, db_entry_lock_rd, db_entry_unlock}
use rdma_rendezvous_key_valu.Server.Store.{in_db, in_reqs, in_entries, in_queues}
use rdma_rendezvous_key_valu.Server.Requests.{
  push_pending_request, remove_server_pending_request, mark_rdma_fin_required,
  mark_rdma_fin_received, invalidate_requests_by_qp,
}
use rdma_rendezvous_key_valu.Server.State.{Ctx, Connection, ServerState, Server, in_store, in_ctx}
use rdma_rendezvous_key_valu.Server.Connections.{
  get_connection, remove_connection, server_post_recv_buffers, set_connection,
}

-- sizeof(server_response_headers_t) + size + 1, as an `int`, against the payload's length
abbrev pub fits_response : ℕ → Bool
fits_response size =
    let total_size = (server_header_len + size + 1) % u32 in
    leb (2 ^ 31) total_size || leb total_size server_response_payload_len

-- buflen + keylen + 2, as a uint32_t, against the payload's length
abbrev pub fits_request : ℕ → ℕ → Bool
fits_request buflen keylen = leb ((buflen + keylen + 2) % u32) client_request_payload_len

module _ ⦃x : Platform⦄ where
  unfoldable pub server_post_send : ℕ → ℕ → ℕ → Exec Server Bool
  server_post_send qp size buff_id = do
    calls ← gets λ s. s.calls
    modify λ s. record s { calls = suc s.calls }
    if x.ibv_post_send calls qp == 0
        then (do
          in_ctx (
              modify λ ctx. record ctx {
                posted =
                    send_wr qp size (record { wr_id = buff_id; wr_type = send_wrid })
                      (ctx.out_buf buff_id)
                    ∷ ctx.posted;
              })
          pure true)
        else pure false

  -- memcpy(out_buffer, &headers, sizeof(server_response_headers_t))
  unfoldable pub write_headers : ℕ → ServerHeaders → Exec Server (Unit {0})
  write_headers buff_id headers = in_ctx (
      modify λ ctx. record ctx {
        out_buf = update ctx.out_buf buff_id (record (ctx.out_buf buff_id) { headers = headers });
      })

  -- memcpy(out_buffer + sizeof(server_response_headers_t), value, size), within both buffers
  unfoldable pub write_payload : ℕ → Buffer → ℕ → Exec Server (Unit {0})
  write_payload buff_id value size = do
    assert (leb size value.len)
    assert (leb size server_response_payload_len)
    in_ctx (
        modify λ ctx. record ctx {
          out_buf = update ctx.out_buf buff_id (record (ctx.out_buf buff_id) {
            buffer = splice (ctx.out_buf buff_id).buffer 0 (read_bytes value.byte size);
          });
        })

  -- The string at the start of the request's bytes.
  unfoldable pub read_string : ℕ → Bytes → Exec Server (List ℕ)
  read_string room buffer = deref (c_string room buffer)

  -- The value that handle_get_request inserts: calloc(1, 1), which is not tested.
  unfoldable pub calloc_value : Exec Db (Option (List ℕ))
  calloc_value = do p ← in_rest calloc; pure (elim p [ none ↦ none | some a ↦ some [] ])

  -- db_insert(key, value), whose strlen(value) is undefined for a null pointer
  unfoldable pub insert_string : List ℕ → Option (List ℕ) → Exec Db (Unit {0})
  insert_string key none = do check_key key; crash
  insert_string key (some value) = db_insert key value

  -- db_get; for a missing key, db_insert of the new value and db_get
  unfoldable pub find_or_insert : Exec Db (Option (List ℕ)) → List ℕ → Exec Server ℕ
  unfolding insert_string
  find_or_insert new_value key = in_store (
      in_db do
        entry ← db_get key
        elim entry [
          | some p ↦ pure p
          | none ↦ do value ← new_value; insert_string key value; added ← db_get key; deref added
        ])

  module _ (rounds : ℕ) (wait : Exec Server (Unit {0})) where
    -- The loop of get_free_send_buffer, which waits for completions until a buffer is free.
    unfoldable pub wait_send_buffer : ℕ → Exec Server ℕ
    wait_send_buffer zero s = stuck
    wait_send_buffer (suc left) s =
        (do
          buff_id ← in_ctx get_free_send_idx
          elim buff_id [ some i ↦ pure i | none ↦ do wait; wait_send_buffer left ])
          s

    unfoldable pub get_free_send_buffer : Exec Server ℕ
    unfolding wait_send_buffer
    get_free_send_buffer = do
      buff_id ← wait_send_buffer rounds
      in_ctx (acquire_send_buffer buff_id)
      pure buff_id

    -- The rendezvous branch of handle_set_request: room for the data, and its address to the client.
    unfoldable pub offer_write : ℕ → ℕ → ClientHeaders → List ℕ → Exec Server (Unit {0})
    offer_write p qp headers key = do
      in_store (in_db (db_reallocate_item key (headers.buflen % u32)))
      entry ← in_store (in_entries (load p))
      mr ← deref entry.mr
      let response : ServerHeaders = record {
        response = rdma_rkey_set;
        tid = headers.tid;
        keylen = headers.keylen;
        buflen = headers.buflen % u32;
        rkey_info = record {
          rkey = mr.rkey;
          raddr = elim entry.value [ none ↦ 0 | some b ↦ b.addr ];
        };
      }
      buff_id ← get_free_send_buffer
      write_headers buff_id response
      server_post_send qp server_header_len buff_id
      after ← in_store (in_entries (load p))
      entry_key ← deref after.key
      in_store (mark_rdma_fin_required headers.tid entry_key qp)

    -- The eager branch of handle_set_request: the value stands behind the key.
    unfoldable pub store_value : ℕ → ClientHeaders → List ℕ → ℕ → Bytes → Exec Server (Unit {0})
    store_value p headers key room buffer = do
      let off = headers.keylen + 1
      value ← read_string (room - off) (advance buffer off)
      in_store (in_db (db_insert key value))
      in_store (in_entries (db_entry_unlock p))
      in_store (remove_server_pending_request headers.tid)

    -- `true` is the result 1: the entry is locked, and the request is pending.
    unfoldable pub handle_set_request : ℕ → ClientHeaders → ℕ → Bytes → WrIdInfo → Exec Server Bool
    unfolding offer_write store_value
    handle_set_request qp headers room buffer info = do
      key ← read_string room buffer
      p ← find_or_insert (pure (some [])) key
      locked ← in_store (in_entries (db_entry_lock_wr p))
      if locked
          then (do
            if fits_request (headers.buflen % u32) headers.keylen
                then store_value p headers key room buffer
                else offer_write p qp headers key
            pure false)
          else (do
            in_store (in_reqs (push_pending_request headers.tid info headers buffer qp))
            pure true)

    -- The branch of handle_get_request for a value that fits the response.
    unfoldable pub send_value : ℕ → ℕ → ServerHeaders → ℕ → Entry → Exec Server (Unit {0})
    send_value p qp headers buff_id entry = do
      write_headers buff_id (record headers { response = get_response })
      value ← deref entry.value
      write_payload buff_id value ((entry.size + 1) % u32)
      server_post_send qp ((server_header_len + entry.size + 1) % u32) buff_id
      in_store (in_entries (db_entry_unlock p))
      in_store (remove_server_pending_request headers.tid)

    -- The region of the entry, which is registered if it is missing: it is the entry as the wait for
    -- a send buffer has left it, and the size from before.
    register_missing : (p size : ℕ) → Exec Server (Option Mr)
    register_missing p size = do
      entry ← in_store (in_entries (load p))
      elim entry.mr [
        | some m ↦ pure (some m)
        | none ↦ do
          mr ← in_store (in_entries (ibv_reg_mr entry.value size))
          in_store (in_entries (store p (record entry { mr = mr })))
          pure mr
      ]

    -- The rendezvous branch of handle_get_request.
    unfoldable pub offer_read : ℕ → ℕ → ServerHeaders → ℕ → ℕ → Exec Server (Unit {0})
    unfolding register_missing
    offer_read p qp headers buff_id size = do
      registered ← register_missing p size
      mr ← deref registered
      write_headers buff_id (record headers {
        response = rdma_rkey_get;
        rkey_info = record { rkey = mr.rkey; raddr = mr.addr };
      })
      server_post_send qp server_header_len buff_id
      in_store (remove_server_pending_request headers.tid)
      after ← in_store (in_entries (load p))
      entry_key ← deref after.key
      in_store (mark_rdma_fin_required headers.tid entry_key qp)

    unfoldable pub handle_get_request : ℕ → ClientHeaders → ℕ → Bytes → WrIdInfo → Exec Server Bool
    unfolding send_value offer_read calloc_value
    handle_get_request qp headers room buffer info = do
      key ← read_string room buffer
      p ← find_or_insert calloc_value key
      locked ← in_store (in_entries (db_entry_lock_rd p))
      if locked
          then (do
            entry ← in_store (in_entries (load p))
            buff_id ← get_free_send_buffer
            let resp_headers : ServerHeaders = record {
              response = zero_response;
              tid = headers.tid;
              keylen = headers.keylen;
              buflen = entry.size;
              rkey_info = no_rkey;
            }
            if fits_response entry.size
                then send_value p qp resp_headers buff_id entry
                else offer_read p qp resp_headers buff_id entry.size
            pure false)
          else (do
            in_store (in_reqs (push_pending_request headers.tid info headers buffer qp))
            pure true)

    -- The case RDMA_FIN_CLIENT. `true` is the result 0, and `false` -1.
    unfoldable pub handle_rdma_fin : ℕ → ClientHeaders → Bytes → Exec Server Bool
    handle_rdma_fin qp headers buffer = do
      assert (ltb headers.keylen client_request_payload_len)
      key ← read_string client_request_payload_len (update buffer headers.keylen 0)
      entry ← in_store (in_db (db_get key))
      elim entry [
        | some p ↦ do
          received ← in_store (mark_rdma_fin_received headers.tid)
          if received
              then (do in_store (remove_server_pending_request headers.tid); pure true)
              else exit 1
        | none ↦ do in_store (invalidate_requests_by_qp qp); remove_connection qp; pure false
      ]

    -- Counts the received message, and posts receive buffers when few are left.
    unfoldable pub refill_recv_buffers : ℕ → Exec Server (Unit {0})
    refill_recv_buffers c = do
      connection ← gets λ s. s.connections c
      set_connection c (record connection { curr_recv_buff = dec_int connection.curr_recv_buff })
      if int_leb (dec_int connection.curr_recv_buff) (pos 100)
          then (do
            posted ← server_post_recv_buffers c
            after ← gets λ s. s.connections c
            let curr = add_int after.curr_recv_buff posted
            set_connection c (record after { curr_recv_buff = curr })
            if int_ltb curr (dec_int after.max_recv_buff) then exit 1 else pure tt)
          else pure tt

    unfoldable pub handle_recv_request : WrIdInfo → ℕ → Exec Server Bool
    unfolding handle_set_request handle_get_request handle_rdma_fin refill_recv_buffers
    handle_recv_request info qp_num = do
      found ← get_connection qp_num
      elim found [
        | none ↦ pure false
        | some c ↦ do
          connection ← gets λ s. s.connections c
          qp ← deref connection.qp
          refill_recv_buffers c
          request ← in_ctx (get_recv_buffer info.wr_id)
          let headers = request.headers
          let room = client_request_payload_len
          elim headers.opcode [
            | set_request ↦ do handle_set_request qp headers room request.buffer info; pure true
            | get_request ↦ do handle_get_request qp headers room request.buffer info; pure true
            | rdma_fin_client ↦ handle_rdma_fin qp headers request.buffer
            | _ ↦ do remove_connection qp_num; pure true
          ]
      ]
