-- ===== src/Exchange/Calls.antt =====
-- A call of kv_set or kv_get in client.c and the handler of its message in server.c.
use rdma_rendezvous_key_valu.Prelude.{
  ℕ, suc, ◌+◌, ◌≤◌, ◌<◌, ◌≡◌, refl, false, true, List, [], ◌∷◌, Option, none, some, IsCString,
  length, pos, dec_int, int_leb, c_string, c_string-splice, c_string-same, arith, splice,
  read_bytes,
}
use rdma_rendezvous_key_valu.Prelude.Exec.{Exec, done}
use rdma_rendezvous_key_valu.Platform.{Platform}
use rdma_rendezvous_key_valu.Common.Constants.{
  client_header_len, client_request_payload_len, server_header_len, server_response_payload_len,
  send_wrid, get_response,
}
use rdma_rendezvous_key_valu.Common.Message.{
  Message, ClientHeaders, ServerHeaders, WrIdInfo, no_rkey,
}
use rdma_rendezvous_key_valu.Common.Context.{send_wr}
use rdma_rendezvous_key_valu.Common.Buffers.{get_free_send_idx}
use rdma_rendezvous_key_valu.Server.Db.{Buffer, Entry, DbRest}
use rdma_rendezvous_key_valu.Server.Db.Locks.{IsLocked}
use rdma_rendezvous_key_valu.Server.Db.Insert.{HasRoom}
use rdma_rendezvous_key_valu.Server.Requests.Fin.{IsIdle}
use rdma_rendezvous_key_valu.Server.State.{Server, Ctx as ServerCtx}
use rdma_rendezvous_key_valu.Server.Handlers.{handle_set_request, handle_get_request}
use rdma_rendezvous_key_valu.Server.Handlers.Set.{
  Names, entries_of, Stored, in_rest_state, handle_set_request-eager,
}
use rdma_rendezvous_key_valu.Server.Handlers.Get.{after_reply, handle_get_request-reply}
use rdma_rendezvous_key_valu.Client.Tid.{TidCounter, get_new_tid}
use rdma_rendezvous_key_valu.Client.Requests.{num_pending_requests}
use rdma_rendezvous_key_valu.Client.State.{Wc, Ctx, Client}
use rdma_rendezvous_key_valu.Client.Api.{kv_set, kv_get}
use rdma_rendezvous_key_valu.Client.Api.Set.{set_message, after_set, kv_set-eager}
use rdma_rendezvous_key_valu.Client.Api.Wait.{sent_wc, response_wc}
use rdma_rendezvous_key_valu.Client.Api.Get.{get_message, kv_get-answered}

module _ ⦃x : Platform⦄ where
  -- kv_set of two strings that fit the request, with a send buffer free, fewer than 250 pending
  -- requests and a post that the adapter takes, returns 0 and posts one message. A server that has
  -- the key in its table, with an entry that nobody holds and that has room, and without leftovers
  -- of the message's id, handles this message with the result 0, and its entry then holds the
  -- value.
  pub set_call :
      (rounds : ℕ) (wait : Exec Server (Unit {0})) (key value : List ℕ) (client : Client) (i : ℕ)
      (c : Ctx) (tid : ℕ) (next : TidCounter) (s : Server) (qp : ℕ) (info : WrIdInfo) (p : ℕ)
      (e : Entry) (b : Buffer)
      → IsCString key
      → IsCString value
      → length key + length value + 2 ≤ client_request_payload_len
      → get_free_send_idx client.ctx ≡ done (some i, c)
      → num_pending_requests client.queue < 250
      → get_new_tid client.last_used_tid ≡ done (tid, next)
      → x.ibv_post_send client.calls client.qp_num ≡ 0
      → HasRoom s.store.db key p e b value
      → IsLocked e
      → e.num_readers + e.num_writers ≡ 0
      → IsIdle tid s.store.reqs.rest
      → (client' : Client) × (m : Message ClientHeaders) × (r : DbRest) × (e' : Entry)
        × (b' : Buffer) × (kv_set (suc rounds) key value client ≡ done (true, client'))
        × (client'.ctx.posted
            ≡ send_wr client.qp_num
                (client_header_len + (length key + 1) + length value + 1)
                (record { wr_id = i; wr_type = send_wrid })
                m
              ∷ c.posted)
        × (handle_set_request rounds wait qp m.headers client_request_payload_len m.buffer info s
            ≡ done (false, in_rest_state s r))
        × Stored s p e b value r e' b'
  set_call rounds wait key value client i c tid next s qp info p e b ck cv fit free few new posted
        roomy locked unheld idle =
      let (run, at_key, at_value, small) =
        kv_set-eager rounds key value client i c tid next ck cv fit free few new posted in
      let m = set_message key value tid i c in
      let (r, e', b', handled, ok) =
        handle_set_request-eager rounds wait qp m.headers client_request_payload_len m.buffer info s
          key p e b value
          (record { key_read = at_key; found = roomy.found; at = roomy.at; locked = locked }) roomy
          small unheld at_value idle in
      (after_set key value tid next i client c, m, r, e', b', run, refl, handled, ok)

  -- The response with the value of the entry e, from its buffer b, in the send buffer j.
  abbrev pub response_of :
      Message ClientHeaders → Entry → Buffer → ℕ → ServerCtx → Message ServerHeaders
  response_of g e b j d = record {
    headers = record {
      response = get_response;
      tid = g.headers.tid;
      keylen = g.headers.keylen;
      buflen = e.size;
      rkey_info = no_rkey;
    };
    buffer = splice (d.out_buf j).buffer 0 (read_bytes b.byte (e.size + 1));
  }

  -- kv_get of a key that fits the request, while the key's value in the server is a string that fits
  -- a response. The client has a send buffer, an id that is not pending, allocations that succeed,
  -- and receive buffers enough, no signal has asked it to stop, and its next poll reports that its
  -- send is done and that the server's response has come. The server has the key in its table, with
  -- an entry without a writer and with fewer readers than the greatest number, a send buffer, and no
  -- leftovers of the id; both posts are taken. Then the server handles the message that kv_get posts
  -- with the result 0 and posts that response, and kv_get returns 0 with a buffer from which the
  -- value is read.
  pub get_call :
      (rounds : ℕ) (wait : Exec Server (Unit {0})) (key value : List ℕ) (client : Client) (i k : ℕ)
      (c : Ctx) (tid : ℕ) (next : TidCounter) (rest : List (Option (List Wc))) (s : Server) (qp : ℕ)
      (info : WrIdInfo) (p : ℕ) (e : Entry) (b : Buffer) (j : ℕ) (d : ServerCtx)
      → IsCString key
      → length key + 1 ≤ client_request_payload_len
      → get_free_send_idx client.ctx ≡ done (some i, c)
      → get_new_tid client.last_used_tid ≡ done (tid, next)
      → x.ibv_post_send client.calls client.qp_num ≡ 0
      → x.tids.find (pos tid) client.queue.internal_q ≡ none
      → ((n : ℕ) → x.calloc n ≡ true)
      → client.immediate_shutdown ≡ false
      → int_leb (dec_int c.curr_recv_buff) (pos 10) ≡ false
      → x.keys.find key s.store.db.rest.internal_db ≡ some p
      → entries_of s p ≡ some e
      → IsLocked e
      → e.value ≡ some b
      → e.size + 1 ≤ b.len
      → 0 < e.size
      → c_string e.size b.byte ≡ some value
      → server_header_len + e.size + 1 ≤ server_response_payload_len
      → e.num_writers ≡ 0
      → e.num_readers < x.rwlock.max_readers
      → get_free_send_idx s.ctx ≡ done (some j, d)
      → x.ibv_post_send s.calls qp ≡ 0
      → IsIdle tid s.store.reqs.rest
      → client.completions
        ≡ some (sent_wc i ∷ response_wc k (response_of (get_message key tid i c) e b j d) ∷ [])
          ∷ rest
      → (s' : Server) × (client' : Client) × (g : Message ClientHeaders) × (a : Buffer)
        × (handle_get_request
              (suc rounds)
              wait
              qp
              g.headers
              client_request_payload_len
              g.buffer
              info
              s
            ≡ done (false, s'))
        × (s'.ctx.posted
            ≡ send_wr qp
                (server_header_len + e.size + 1)
                (record { wr_id = j; wr_type = send_wrid })
                (response_of g e b j d)
              ∷ d.posted)
        × (kv_get (suc (suc rounds)) key client ≡ done (some (some a), client'))
        × (client'.ctx.posted
            ≡ send_wr client.qp_num
                (client_header_len + length key + 1)
                (record { wr_id = i; wr_type = send_wrid })
                g
              ∷ c.posted)
        × (c_string a.len a.byte ≡ some value)
  get_call rounds wait key value client i k c tid next rest s qp info p e b j d ck fit free new
        taken absent made running stocked found at locked at_value len some_value text small alone
        few free' taken' idle polled =
      let g = get_message key tid i c in
      let room = client_request_payload_len in
      let names : Names s room g.buffer key p e = record {
        key_read = c_string-splice key room (c.out_buf i).buffer ck (omega arith);
        found = found;
        at = at;
        locked = locked;
      } in
      let (r, e', run, _, _, _, _, _, _, bytes) =
        handle_get_request-reply rounds wait qp g.headers room g.buffer info s key p e b j d names
          at_value len small alone few free' taken' idle in
      let m = response_of g e b j d in
      let (a, client', got, read, sent, _, _) =
        kv_get-answered rounds key tid next i client c k m rest e.size value fit free new taken
          absent (made client.queue.calls) (made (suc client.queue.calls))
          (made (suc (suc client.queue.calls))) polled running stocked refl refl some_value
          (omega (arith, small)) (omega arith)
          (rw (c_string-same e.size b.byte m.buffer (λ l h. bytes l (omega arith))) text) in
      (
        after_reply rounds wait qp g.headers room g.buffer info s key p e b j d r,
        client',
        g,
        a,
        run,
        refl,
        got,
        sent,
        read,
      )
