-- ===== src/Client/Api/Get.antt =====
-- kv_get of client.c on a key whose value comes in one response.
use rdma_rendezvous_key_valu.Prelude.{
  ℕ, suc, ◌+◌, ◌≤◌, ◌<◌, ◌≡◌, refl, true, false, List, [], ◌∷◌, ◌++◌, Option, none, some, arith,
  ◌∙◌, length, length-terminated, int_eq_refl, update, splice, c_string, pos, dec_int, int_leb,
  le→leb, ==_refl,
}
use rdma_rendezvous_key_valu.Prelude.Exec.{done, Exec, pure, ◌>>=◌, ◌>>◌}
use rdma_rendezvous_key_valu.Platform.{Platform}
use rdma_rendezvous_key_valu.Common.Constants.{
  client_header_len, client_request_payload_len, server_response_payload_len, send_wrid,
  get_request, get_response,
}
use rdma_rendezvous_key_valu.Common.Message.{
  Message, ClientHeaders, ServerHeaders, server_blank, client_blank,
}
use rdma_rendezvous_key_valu.Common.Context.{send_wr}
use rdma_rendezvous_key_valu.Common.Buffers.{get_free_send_idx, acquire_send_buffer}
use rdma_rendezvous_key_valu.Server.Db.{Buffer}
use rdma_rendezvous_key_valu.Client.Tid.{TidCounter, get_new_tid}
use rdma_rendezvous_key_valu.Client.Requests.{
  ClientRequest, Queue, blank_request, calloc, load, store, add_client_pending_request,
  get_client_pending_request, remove_client_pending_request,
}
use rdma_rendezvous_key_valu.Client.Api.Set.{wait_send_idx-free}
use rdma_rendezvous_key_valu.Client.State.{Wc, Ctx, Client, in_queue}
use rdma_rendezvous_key_valu.Client.Completions.{write_request, client_post_send}
use rdma_rendezvous_key_valu.Client.Completions.Response.{received}
use rdma_rendezvous_key_valu.Client.Api.{wait_reply, register_key, write_strings, kv_get}
use rdma_rendezvous_key_valu.Client.Api.Wait.{
  sent_wc, response_wc, Awaits, after_response, responds, wait_reply-response,
}

module _ ⦃x : Platform⦄ where
  -- The end of kv_get, on the request at p.
  abbrev collect : ℕ → ℕ → ℕ → Exec Client (Option (Option Buffer))
  collect tid rounds p = do
    wait_reply rounds rounds p
    after ← in_queue (load p)
    in_queue (store p (record after { in_buf = none }))
    in_queue (remove_client_pending_request tid)
    pure (some after.in_buf)

  -- The client when the request at p is forgotten.
  abbrev closed :
      ℕ
      → Client
      → ℕ
      → ℕ
      → Message ServerHeaders
      → List (Option (List Wc))
      → ℕ
      → ClientRequest
      → Client
  closed tid t i k m rest p r =
      let u = after_response t i k m rest p r in
      record u {
        queue = record u.queue {
          internal_q = x.tids.del (pos tid) t.queue.internal_q;
          requests =
              update
                (update u.queue.requests p (some (record r { is_pending = false; in_buf = none })))
                p none;
        };
      }

  collect-answered :
      (tid rounds : ℕ) (t : Client) (i k : ℕ) (m : Message ServerHeaders)
      (rest : List (Option (List Wc))) (p : ℕ) (r : ClientRequest) (n : ℕ) (value : List ℕ)
      → Awaits t i k m rest p r n value
      → r.is_pending ≡ true
      → x.tids.find (pos tid) t.queue.internal_q ≡ some p
      → collect tid (suc (suc rounds)) p t
        ≡ done (some (some (received t m)), closed tid t i k m rest p r)
  unfolding remove_client_pending_request load store
  collect-answered tid rounds t i k m rest p r n value w pending at_tid = rw (
    wait_reply-response t i k m rest p r n value w (suc rounds) rounds pending,
    ==_refl p,
    at_tid,
    ==_refl p,
  )

  abbrev pub get_message : List ℕ → ℕ → ℕ → Ctx → Message ClientHeaders
  get_message key tid i c = record {
    headers = record { tid = tid; opcode = get_request; keylen = length key; buflen = 0 };
    buffer = splice (c.out_buf i).buffer 0 (key ++ 0 ∷ []);
  }

  module _ (key : List ℕ) (tid : ℕ) (next : TidCounter) (i : ℕ) (s : Client) (c : Ctx) where
    abbrev asked : ClientRequest
    asked = record blank_request {
      tid = pos tid;
      is_pending = true;
      key = some key;
      opcode = get_request;
    }

    abbrev asked_queue : Queue
    asked_queue =
        let p = suc s.queue.calls in
        let blank : ClientRequest = record blank_request { tid = pos tid; key = some [] } in
        record {
          internal_q = x.tids.add (pos tid) p s.queue.internal_q;
          requests =
              update
                (update (update s.queue.requests p (some blank)) p
                  (some (record blank { is_pending = true; key = some key })))
                p (some asked);
          calls = suc (suc s.queue.calls);
        }

    -- The client when the request is posted.
    abbrev after_ask : Client
    after_ask = record s {
      ctx = record c {
        in_use_send = update c.in_use_send i true;
        out_buf = update c.out_buf i (get_message key tid i c);
        posted =
            send_wr s.qp_num (client_header_len + length key + 1)
              (record { wr_id = i; wr_type = send_wrid }) (get_message key tid i c)
            ∷ c.posted;
      };
      queue = asked_queue;
      last_used_tid = next;
      calls = suc s.calls;
    }

    register_key-new :
        (rounds : ℕ)
        → length key + 1 ≤ client_request_payload_len
        → x.tids.find (pos tid) s.queue.internal_q ≡ none
        → x.calloc s.queue.calls ≡ true
        → x.calloc (suc s.queue.calls) ≡ true
        → register_key rounds tid key s.queue
          ≡ done (
            suc s.queue.calls,
            record asked_queue {
              requests =
                  update
                    (update s.queue.requests
                      (suc s.queue.calls)
                      (some (record blank_request { tid = pos tid; key = some [] })))
                    (suc s.queue.calls)
                    (some
                      (record blank_request { tid = pos tid; is_pending = true; key = some key }));
            },
          )
    unfolding register_key add_client_pending_request get_client_pending_request load store calloc
    register_key-new rounds fit absent made made' = rw (
      absent,
      made,
      made',
      x.tids.find-add (pos tid) (pos tid) (suc s.queue.calls) s.queue.internal_q absent,
      int_eq_refl (pos tid),
      ==_refl (suc s.queue.calls),
      le→leb (length key) client_request_payload_len (omega arith),
    )

    kv_get-asks :
        (rounds : ℕ)
        → length key + 1 ≤ client_request_payload_len
        → get_free_send_idx s.ctx ≡ done (some i, c)
        → get_new_tid s.last_used_tid ≡ done (tid, next)
        → x.ibv_post_send s.calls s.qp_num ≡ 0
        → x.tids.find (pos tid) s.queue.internal_q ≡ none
        → x.calloc s.queue.calls ≡ true
        → x.calloc (suc s.queue.calls) ≡ true
        → kv_get (suc rounds) key s ≡ collect tid (suc rounds) (suc s.queue.calls) after_ask
    unfolding kv_get write_strings acquire_send_buffer client_post_send write_request load store
    kv_get-asks rounds fit free new posted absent made made' = rw (
      wait_send_idx-free (suc rounds) rounds i s c free,
      new,
      le→leb (length (key ++ (0 ∷ []))) client_request_payload_len
          (omega (arith, length-terminated key [])),
      register_key-new (suc rounds) fit absent made made',
      ==_refl (suc s.queue.calls),
      ==_refl i,
      posted,
      ==_refl (suc s.queue.calls),
    )

  -- A key that fits the request and whose new id is not pending, with a send buffer free, three
  -- successful allocations, and a post that the adapter takes; and the next poll reports that the
  -- send is done and that a response with this id has come, whose bytes are not none, fit the payload
  -- and begin with the value and its terminator, while enough receive buffers are posted and no
  -- signal has asked to stop. Then kv_get returns 0, with a new buffer from which the value is read.
  -- It has posted just one message, the one with the key; its request is forgotten and its send
  -- buffer is free again.
  pub kv_get-answered :
      (rounds : ℕ) (key : List ℕ) (tid : ℕ) (next : TidCounter) (i : ℕ) (s : Client) (c : Ctx)
      (k : ℕ) (m : Message ServerHeaders) (rest : List (Option (List Wc))) (n : ℕ) (value : List ℕ)
      → length key + 1 ≤ client_request_payload_len
      → get_free_send_idx s.ctx ≡ done (some i, c)
      → get_new_tid s.last_used_tid ≡ done (tid, next)
      → x.ibv_post_send s.calls s.qp_num ≡ 0
      → x.tids.find (pos tid) s.queue.internal_q ≡ none
      → x.calloc s.queue.calls ≡ true
      → x.calloc (suc s.queue.calls) ≡ true
      → x.calloc (suc (suc s.queue.calls)) ≡ true
      → s.completions ≡ some (sent_wc i ∷ response_wc k m ∷ []) ∷ rest
      → s.immediate_shutdown ≡ false
      → int_leb (dec_int c.curr_recv_buff) (pos 10) ≡ false
      → m.headers.response ≡ get_response
      → m.headers.tid ≡ tid
      → 0 < m.headers.buflen
      → m.headers.buflen + 1 ≤ server_response_payload_len
      → n ≤ m.headers.buflen + 1
      → c_string n m.buffer ≡ some value
      → (b : Buffer) × (s' : Client) × (kv_get (suc (suc rounds)) key s ≡ done (some (some b), s'))
        × (c_string b.len b.byte ≡ some value)
        × (s'.ctx.posted
            ≡ send_wr s.qp_num
                (client_header_len + length key + 1)
                (record { wr_id = i; wr_type = send_wrid })
                (get_message key tid i c)
              ∷ c.posted)
        × (x.tids.find (pos tid) s'.queue.internal_q ≡ none)
        × (s'.ctx.in_use_send i ≡ false)
  kv_get-answered rounds key tid next i s c k m rest n value fit free new posted absent made made'
        made'' polled running stocked kind same some_value small within text =
      let p = suc s.queue.calls in
      let t = after_ask key tid next i s c in
      let r = asked key tid next i s c in
      let at_tid : x.tids.find (pos tid) t.queue.internal_q ≡ some p =
        rw (
          x.tids.find-add (pos tid) (pos tid) p s.queue.internal_q absent,
          int_eq_refl (pos tid),
        ) in
      let w : Awaits t i k m rest p r n value = record {
        next = polled;
        running = running;
        stocked = stocked;
        kind = kind;
        found = rw same at_tid;
        live = rw (==_refl p);
        allocated = made'';
        some_value = some_value;
        fits = small;
        within = within;
        text = text;
      } in
      let (_, read) = responds t i k m rest p r n value w in
      (
        received t m,
        closed tid t i k m rest p r,
        kv_get-asks key tid next i s c (suc rounds) fit free new posted absent made made'
            ∙ collect-answered tid rounds t i k m rest p r n value w refl at_tid,
        read,
        refl,
        rw (x.tids.find-del (pos tid) (pos tid) t.queue.internal_q, int_eq_refl (pos tid)),
        rw (==_refl i),
      )
