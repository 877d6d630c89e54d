-- ===== src/Exchange.antt =====
-- A SET and a GET, from the handlers in server.c to the handler of the response in client.c.
pub mod Calls
use rdma_rendezvous_key_valu.Prelude.{
  ℕ, suc, ◌+◌, ◌≤◌, ◌<◌, ◌≡◌, refl, false, true, List, ◌∷◌, some, arith, pos, Bytes, c_string,
  c_string-same, ap, ◌∙◌, length, advance, ◌-◌, ◌%◌,
}
use rdma_rendezvous_key_valu.Prelude.Exec.{Exec, done}
use rdma_rendezvous_key_valu.Platform.{Platform}
use rdma_rendezvous_key_valu.Common.Constants.{
  server_header_len, server_response_payload_len, send_wrid,
}
use rdma_rendezvous_key_valu.Common.Message.{Message, ClientHeaders, ServerHeaders, WrIdInfo}
use rdma_rendezvous_key_valu.Common.Context.{send_wr}
use rdma_rendezvous_key_valu.Common.Buffers.{get_free_send_idx}
use rdma_rendezvous_key_valu.Server.Db.{Buffer, Entry, u32}
use rdma_rendezvous_key_valu.Server.Db.Insert.{HasRoom}
use rdma_rendezvous_key_valu.Server.Requests.Fin.{IsIdle}
use rdma_rendezvous_key_valu.Server.State.{Server, Ctx}
use rdma_rendezvous_key_valu.Server.Handlers.{handle_get_request, handle_set_request, fits_request}
use rdma_rendezvous_key_valu.Server.Handlers.Set.{Names, in_rest_state, handle_set_request-eager}
use rdma_rendezvous_key_valu.Server.Handlers.Get.{replied, after_reply, handle_get_request-reply}
use rdma_rendezvous_key_valu.Client.Requests.{ClientRequest}
use rdma_rendezvous_key_valu.Client.State.{Client}
use rdma_rendezvous_key_valu.Client.Completions.Handling.{client_handle_get_response}
use rdma_rendezvous_key_valu.Client.Completions.Response.{
  received, answered, client_handle_get_response_lem,
}

module _ ⦃x : Platform⦄ where
  -- A GET for an entry without a writer and with fewer than the greatest number of readers, whose
  -- value is a string that fits a response, with a send buffer free, a post that the adapter
  -- takes, and without leftovers of its id: the server posts one message to the queue pair of the
  -- request, and if a client with a pending request of that id handles this message, and its
  -- allocation succeeds, its request is no longer pending and holds a buffer with that string.
  pub get_round_trip :
      (rounds : ℕ) (wait : Exec Server (Unit {0})) (qp : ℕ) (headers : ClientHeaders) (room : ℕ)
      (buffer : Bytes) (info : WrIdInfo) (s : Server) (key : List ℕ) (p : ℕ) (e : Entry)
      (b : Buffer) (i : ℕ) (c : Ctx) (value : List ℕ) (client : Client) (q : ℕ) (r : ClientRequest)
      → Names s room buffer key p e
      → e.value ≡ some b
      → e.size + 1 ≤ b.len
      → 0 < e.size
      → c_string e.size b.byte ≡ some value
      → server_header_len + e.size + 1 ≤ server_response_payload_len
      → e.num_writers ≡ 0
      → e.num_readers < x.rwlock.max_readers
      → get_free_send_idx s.ctx ≡ done (some i, c)
      → x.ibv_post_send s.calls qp ≡ 0
      → IsIdle headers.tid s.store.reqs.rest
      → x.tids.find (pos headers.tid) client.queue.internal_q ≡ some q
      → client.queue.requests q ≡ some r
      → x.calloc client.queue.calls ≡ true
      → (s' : Server) × (m : Message ServerHeaders) × (handle_get_request
            (suc rounds)
            wait
            qp
            headers
            room
            buffer
            info
            s
          ≡ done (false, s'))
        × (s'.ctx.posted
            ≡ send_wr qp
                (server_header_len + e.size + 1)
                (record { wr_id = i; wr_type = send_wrid })
                m
              ∷ c.posted)
        × (client_handle_get_response m client ≡ done (tt, answered client m q r))
        × (c_string (received client m).len (received client m).byte ≡ some value)
  get_round_trip rounds wait qp headers room buffer info s key p e b i c value client q r n at_value
        len some_value text fit alone few free posted idle found at made =
      let (rest, e', run, _, _, _, _, _, _, bytes) =
        handle_get_request-reply rounds wait qp headers room buffer info s key p e b i c n at_value
          len fit alone few free posted idle in
      let m = replied rounds wait qp headers room buffer info s key p e b i c in
      let (handled, read) =
        client_handle_get_response_lem m q e.size r value client found at made some_value
          (omega (arith, fit)) (omega arith)
          (rw (c_string-same e.size b.byte m.buffer (λ k h. bytes k (omega arith))) text) in
      (
        after_reply rounds wait qp headers room buffer info s key p e b i c rest,
        m,
        run,
        refl,
        handled,
        read,
      )

  -- For a key in the table whose entry nobody holds and has room: a SET whose value fits the request
  -- and a response, and a GET that is handled next, with a send buffer free, a post that the adapter
  -- takes, no leftovers of either id, and a client with a pending request of the GET's id whose
  -- allocation succeeds. Both handlers return 0, the second posts one message, and the client that
  -- handles this message holds a buffer from which it reads the value that was set.
  pub set_get_round_trip :
      (rounds : ℕ) (wait : Exec Server (Unit {0})) (s : Server)
      (set_headers get_headers : ClientHeaders) (room : ℕ) (set_buffer get_buffer : Bytes)
      (set_info get_info : WrIdInfo) (key value : List ℕ) (p : ℕ) (e : Entry) (b : Buffer)
      (set_qp qp i : ℕ) (c : Ctx) (client : Client) (q : ℕ) (r : ClientRequest)
      → Names s room set_buffer key p e
      → HasRoom s.store.db key p e b value
      → fits_request (set_headers.buflen % u32) set_headers.keylen ≡ true
      → e.num_readers + e.num_writers ≡ 0
      → c_string (room - (set_headers.keylen + 1)) (advance set_buffer (set_headers.keylen + 1))
        ≡ some value
      → IsIdle set_headers.tid s.store.reqs.rest
      → c_string room get_buffer ≡ some key
      → server_header_len + length value + 2 ≤ server_response_payload_len
      → 0 < x.rwlock.max_readers
      → get_free_send_idx s.ctx ≡ done (some i, c)
      → x.ibv_post_send s.calls qp ≡ 0
      → IsIdle get_headers.tid s.store.reqs.rest
      → x.tids.find (pos get_headers.tid) client.queue.internal_q ≡ some q
      → client.queue.requests q ≡ some r
      → x.calloc client.queue.calls ≡ true
      → (s1 s2 : Server) × (m : Message ServerHeaders) × (handle_set_request
            (suc rounds)
            wait
            set_qp
            set_headers
            room
            set_buffer
            set_info
            s
          ≡ done (false, s1))
        × (handle_get_request (suc rounds) wait qp get_headers room get_buffer get_info s1
            ≡ done (false, s2))
        × (s2.ctx.posted
            ≡ send_wr qp
                (server_header_len + suc (length value) + 1)
                (record { wr_id = i; wr_type = send_wrid })
                m
              ∷ c.posted)
        × (client_handle_get_response m client ≡ done (tt, answered client m q r))
        × (c_string (received client m).len (received client m).byte ≡ some value)
  set_get_round_trip rounds wait s set_headers get_headers room set_buffer get_buffer set_info
        get_info key value p e b set_qp qp i c client q r names roomy eager unheld carried set_idle
        same_key short readable send_buffer taken get_idle pending live allocated =
      let (rest, e', b', stored, ok) =
        handle_set_request-eager (suc rounds) wait set_qp set_headers room set_buffer set_info s key
          p e b value names roomy eager unheld carried set_idle in
      let s1 = in_rest_state s rest in
      let n : Names s1 room get_buffer key p e' = record {
        key_read = same_key;
        found = rw ok.table names.found;
        at = ok.at;
        locked = ok.locked;
      } in
      let (s2, m, run, posted, handled, read) =
        get_round_trip rounds wait qp get_headers room get_buffer get_info s1 key p e' b' i c value
          client q r n ok.buffer (omega (arith, ok.size, ok.len, roomy.room, roomy.allocated))
          (omega (arith, ok.size)) ok.text (omega (arith, ok.size, short)) (omega (arith, ok.free))
          (omega (arith, ok.free, readable)) send_buffer taken get_idle pending live allocated in
      (
        s1,
        s2,
        m,
        stored,
        run,
        posted
            ∙ ap
                (λ (n : ℕ).
                  send_wr qp (server_header_len + n + 1) (record { wr_id = i; wr_type = send_wrid })
                    m
                  ∷ c.posted)
                ok.size,
        handled,
        read,
      )
