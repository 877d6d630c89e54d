-- ===== src/Server/Teardown.antt =====
-- What the server frees before it ends: clear_preallocated_buffers and the destroy functions of
-- server_internals/, and the messages and the loop by which server.c leaves its clients. The
-- objects of libibverbs and the sockets are not in the state.
use rdma_rendezvous_key_valu.Prelude.{
  ℕ, zero, suc, ◌+◌, Bool, true, List, [], ◌∷◌, Option, none, some, if◌then◌else◌, update, take,
  int_eq, negsuc,
}
use rdma_rendezvous_key_valu.Prelude.Exec.{done, Exec, pure, gets, modify, deref, ◌>>=◌, ◌>>◌}
use rdma_rendezvous_key_valu.Platform.{Platform}
use rdma_rendezvous_key_valu.Common.Constants.{
  max_clients_supported, server_header_len, server_shutdown,
}
use rdma_rendezvous_key_valu.Common.Message.{ServerHeaders, no_rkey}
use rdma_rendezvous_key_valu.Server.Pool.{Pooled, in_rest}
use rdma_rendezvous_key_valu.Server.Db.{
  Db, DbRest, load as load_entry, max_allocated_entries as max_db_entries,
}
use rdma_rendezvous_key_valu.Server.Store.{ReqRest, Reqs, Store, in_reqs, in_queues, in_db}
use rdma_rendezvous_key_valu.Server.Requests.{
  load as load_request, free, max_allocated_entries as max_requests, to_u16,
  remove_server_pending_request,
}
use rdma_rendezvous_key_valu.Server.State.{Server, in_store}
use rdma_rendezvous_key_valu.Server.Connections.{remove_connection}
use rdma_rendezvous_key_valu.Server.Handlers.{get_free_send_buffer, write_headers, server_post_send}

module _ {E : Type 0} (max_entries : ℕ) (free_entry : ℕ → Exec E (Unit {0})) where
  -- `rounds` rounds of the loop of clear_preallocated_buffers, from the index i.
  clear_slots : ℕ → ℕ → Exec (Pooled E) (Unit {0})
  clear_slots zero i = pure tt
  clear_slots (suc rounds) i = do
    slots ← gets λ s. s.pool.slots
    preallocated_entries ← deref slots
    elim (preallocated_entries i) [ none ↦ pure tt | some p ↦ in_rest (free_entry p) ]
    clear_slots rounds (i + 1)

  -- clear_preallocated_buffers of db.c: a null array is read, and the counters are not reset.
  unfoldable pub clear_preallocated_buffers : Exec (Pooled E) (Unit {0})
  unfolding clear_slots
  clear_preallocated_buffers = do
    clear_slots max_entries 0
    modify λ s. record s { pool = record s.pool { slots = none } }

module _ ⦃x : Platform⦄ where
  -- The key, the region and the value go with the struct; each is tested before it is freed.
  free_entry : ℕ → Exec DbRest (Unit {0})
  free_entry p = do
    current_entry ← load_entry p
    modify λ s. record s { entries = update s.entries p none }

  -- The loop of db_destroy. An entry in the table has a key.
  unfoldable pub destroy_entries : List ℕ → Exec DbRest (Unit {0})
  unfolding free_entry
  destroy_entries [] = pure tt
  destroy_entries (p ∷ ps) = do
    current_entry ← load_entry p
    key ← deref current_entry.key
    modify λ s. record s { internal_db = x.keys.del (take current_entry.keylen key) s.internal_db }
    free_entry p
    destroy_entries ps

  unfoldable pub db_destroy : Exec Db (Unit {0})
  unfolding destroy_entries
  db_destroy = do
    elements ← gets λ s. x.keys.iter s.rest.internal_db
    in_rest (destroy_entries elements)
    in_rest (modify λ s. record s { internal_db = x.keys.empty })
    clear_preallocated_buffers max_db_entries free_entry

  free_request : ℕ → Exec ReqRest (Unit {0})
  free_request p = do curr_entry ← load_request p; free p

  -- clear_preallocated_buffers of server_requests_management.c, which tests the array.
  clear_requests : Exec Reqs (Unit {0})
  unfolding free_request
  clear_requests = do
    slots ← gets λ s. s.pool.slots
    elim slots [ none ↦ pure tt | some f ↦ clear_preallocated_buffers max_requests free_request ]

  -- The loop of server_pending_requests_destroy; -1 is the id of the bogus request.
  unfoldable pub destroy_requests : List ℕ → Exec Store (Unit {0})
  destroy_requests [] = pure tt
  destroy_requests (p ∷ ps) = do
    current_entry ← in_queues (load_request p)
    if int_eq current_entry.tid (negsuc 0)
        then in_queues
            (do modify λ q. record q { internal_q = x.tids.del (negsuc 0) q.internal_q }; free p)
        else remove_server_pending_request (to_u16 current_entry.tid)
    destroy_requests ps

  -- free(internal_q), of the first request in the table
  free_head : List ℕ → Exec ReqRest (Unit {0})
  free_head [] = pure tt
  free_head (p ∷ ps) = free p

  unfoldable pub server_pending_requests_destroy : Exec Store (Unit {0})
  unfolding destroy_requests clear_requests free_head
  server_pending_requests_destroy = do
    elements ← in_queues (gets λ q. x.tids.iter q.internal_q)
    destroy_requests elements
    in_queues do
      modify λ q. record q { sorted_q = x.chains.empty }
      rest ← gets λ q. x.tids.iter q.internal_q
      free_head rest
      modify λ q. record q { internal_q = x.tids.empty }
    in_reqs clear_requests

  module _ (rounds : ℕ) (wait : Exec Server (Unit {0})) where
    unfoldable pub send_server_shutdown_message : ℕ → Exec Server (Unit {0})
    send_server_shutdown_message qp = do
      buff_id ← get_free_send_buffer rounds wait
      let resp_headers : ServerHeaders = record {
        response = server_shutdown;
        tid = 0;
        keylen = 0;
        buflen = 0;
        rkey_info = no_rkey;
      }
      write_headers buff_id resp_headers
      server_post_send qp server_header_len buff_id
      pure tt

    ibv_query_qp : ℕ → Exec Server (Option Bool)
    ibv_query_qp qp s = done (x.ibv_query_qp s.calls qp, record s { calls = suc s.calls })

    -- The body of the loop of server_close_ctx. remove_connection gets the index.
    close_connection : ℕ → Option ℕ → Exec Server (Unit {0})
    unfolding ibv_query_qp
    close_connection conn none = pure tt
    close_connection conn (some qp) = do
      ready ← ibv_query_qp qp
      elim ready [ some true ↦ send_server_shutdown_message qp | _ ↦ pure tt ]
      remove_connection conn
      pure tt

    -- The loop of server_close_ctx over the connections conn, …, conn + left - 1.
    unfoldable pub close_connections : ℕ → ℕ → Exec Server (Unit {0})
    unfolding close_connection
    close_connections zero conn = pure tt
    close_connections (suc left) conn = do
      qp ← gets λ s. (s.connections conn).qp
      close_connection conn qp
      close_connections left (conn + 1)

    -- teardown_server_connection ends the process; this is what it does to the state before.
    unfoldable pub before_exit : Exec Server (Unit {0})
    before_exit = do
      in_store server_pending_requests_destroy
      in_store (in_db db_destroy)
      close_connections max_clients_supported 0
