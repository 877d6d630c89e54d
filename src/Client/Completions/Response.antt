-- ===== src/Client/Completions/Response.antt =====
-- client_handle_get_response of client.c.
use rdma_rendezvous_key_valu.Prelude.{
  ℕ, suc, ◌+◌, ◌≤◌, ◌<◌, ◌≡◌, true, false, List, some, update, pos, zeroed, splice, read_bytes,
  splice-read_bytes, c_string, c_string-same, c_string-more, lt→ltb, le→leb,
}
use rdma_rendezvous_key_valu.Prelude.Exec.{done}
use rdma_rendezvous_key_valu.Platform.{Platform}
use rdma_rendezvous_key_valu.Common.Constants.{server_response_payload_len}
use rdma_rendezvous_key_valu.Common.Message.{Message, ServerHeaders}
use rdma_rendezvous_key_valu.Server.Db.{Buffer}
use rdma_rendezvous_key_valu.Client.Requests.{
  ClientRequest, load, store, calloc, get_client_pending_request,
}
use rdma_rendezvous_key_valu.Client.State.{Client}
use rdma_rendezvous_key_valu.Client.Completions.{calloc_buffer}
use rdma_rendezvous_key_valu.Client.Completions.Handling.{client_handle_get_response}

module _ ⦃x : Platform⦄ where
  -- The buffer that the client makes for the value.
  abbrev pub received : Client → Message ServerHeaders → Buffer
  received s response = record {
    addr = suc s.queue.calls;
    len = response.headers.buflen + 1;
    byte = splice zeroed 0 (read_bytes response.buffer (response.headers.buflen + 1));
  }

  abbrev pub answered : Client → Message ServerHeaders → ℕ → ClientRequest → Client
  answered s response p r = record s {
    queue = record s.queue {
      requests =
          update s.queue.requests p
            (some (record r { in_buf = some (received s response); is_pending = false }));
      calls = suc s.queue.calls;
    };
  }

  -- A GET_RESPONSE for a pending request, with a value that is not empty and fits the payload, and
  -- if the allocation succeeds: the request is no longer pending, and it holds a new buffer. A
  -- string that the response carries in its first buflen + 1 bytes is read from that buffer. No
  -- other request changes.
  pub client_handle_get_response_lem :
      (response : Message ServerHeaders) (p n : ℕ) (r : ClientRequest) (value : List ℕ) (s : Client)
      → x.tids.find (pos response.headers.tid) s.queue.internal_q ≡ some p
      → s.queue.requests p ≡ some r
      → x.calloc s.queue.calls ≡ true
      → 0 < response.headers.buflen
      → response.headers.buflen + 1 ≤ server_response_payload_len
      → n ≤ response.headers.buflen + 1
      → c_string n response.buffer ≡ some value
      → (client_handle_get_response response s ≡ done (tt, answered s response p r))
        × (c_string (received s response).len (received s response).byte ≡ some value)
  unfolding client_handle_get_response get_client_pending_request load store calloc_buffer calloc
  client_handle_get_response_lem response p n r value s found at made some_value fits le text = (
    rw (
      found,
      lt→ltb 0 response.headers.buflen some_value,
      made,
      le→leb (response.headers.buflen + 1) server_response_payload_len fits,
      at,
    ),
    rw
        (c_string-same (response.headers.buflen + 1) response.buffer (received s response).byte
          (λ i h.
            rw (splice-read_bytes zeroed response.buffer (response.headers.buflen + 1) i)
              (rw (lt→ltb i (response.headers.buflen + 1) h))))
        (c_string-more n (response.headers.buflen + 1) response.buffer value text le),
  )
