-- ===== src/Client/Api/Wait.antt =====
-- How kv_get of client.c waits for its response: client_wait_completions and the loop on is_pending.
use rdma_rendezvous_key_valu.Prelude.{
  ℕ, zero, suc, ◌+◌, ◌≤◌, Bool, ◌<◌, ◌≡◌, refl, true, false, List, [], ◌∷◌, Option, none, some, ap,
  ◌∙◌, update, zeroed, c_string, pos, dec_int, int_leb, ==_refl,
}
use rdma_rendezvous_key_valu.Prelude.Exec.{
  done, Exec, pure, exit, modify, ◌>>=◌, ◌>>◌, branch-false,
}
use rdma_rendezvous_key_valu.Platform.{Platform}
use rdma_rendezvous_key_valu.Common.Constants.{
  server_response_payload_len, recv_wrid, send_wrid, get_response,
}
use rdma_rendezvous_key_valu.Common.Message.{
  Message, ServerHeaders, blank_message, server_blank, client_blank,
}
use rdma_rendezvous_key_valu.Common.Buffers.{
  free_send_buffer, release_send_buffer, release_receive_buffer,
}
use rdma_rendezvous_key_valu.Client.Requests.{ClientRequest, load}
use rdma_rendezvous_key_valu.Client.State.{Wc, Ctx, Client}
use rdma_rendezvous_key_valu.Client.Completions.Handling.{
  handle_completions, refill_recv_buffers, client_handle_recv, client_handle_get_response,
}
use rdma_rendezvous_key_valu.Client.Completions.Response.{
  received, answered, client_handle_get_response_lem,
}
use rdma_rendezvous_key_valu.Client.Api.{
  ibv_poll_cq, deposit, wait_loop, client_wait_completions, wait_reply,
}

abbrev pub sent_wc : ℕ → Wc
sent_wc i = record {
  wr_id = record { wr_id = i; wr_type = send_wrid };
  success = true;
  message = blank_message;
  read_data = zeroed;
}

abbrev pub response_wc : ℕ → Message ServerHeaders → Wc
response_wc k m = record {
  wr_id = record { wr_id = k; wr_type = recv_wrid };
  success = true;
  message = m;
  read_data = zeroed;
}

module _ ⦃x : Platform⦄ where
  -- A client that waits for the response m to its request r at p: the next poll reports that the
  -- send from buffer i is done and that m has come into buffer k.
  pub record Awaits (t : Client) (i k : ℕ) (m : Message ServerHeaders)
      (rest : List (Option (List Wc))) (p : ℕ) (r : ClientRequest) (n : ℕ) (value : List ℕ)
      : Type 0 where
    pub next : t.completions ≡ some (sent_wc i ∷ response_wc k m ∷ []) ∷ rest
    pub running : t.immediate_shutdown ≡ false
    pub stocked : int_leb (dec_int t.ctx.curr_recv_buff) (pos 10) ≡ false
    pub kind : m.headers.response ≡ get_response
    pub found : x.tids.find (pos m.headers.tid) t.queue.internal_q ≡ some p
    pub live : t.queue.requests p ≡ some r
    pub allocated : x.calloc t.queue.calls ≡ true
    pub some_value : 0 < m.headers.buflen
    pub fits : m.headers.buflen + 1 ≤ server_response_payload_len
    pub within : n ≤ m.headers.buflen + 1
    pub text : c_string n m.buffer ≡ some value

  -- The context when both completions are handled.
  abbrev pub handled_ctx : Ctx → ℕ → ℕ → Message ServerHeaders → Ctx
  handled_ctx c i k m = record c {
    in_buf = update c.in_buf k m;
    out_buf = update c.out_buf i blank_message;
    in_use_send = update c.in_use_send i false;
    curr_recv_buff = dec_int c.curr_recv_buff;
    in_use_recv = update c.in_use_recv k false;
  }

  abbrev pub after_response :
      Client → ℕ → ℕ → Message ServerHeaders → List (Option (List Wc)) → ℕ → ClientRequest → Client
  after_response t i k m rest p r = record (answered t m p r) {
    completions = rest;
    ctx = handled_ctx t.ctx i k m;
  }

  -- The client when it handles the response.
  abbrev at_response : Client → ℕ → ℕ → Message ServerHeaders → List (Option (List Wc)) → Client
  at_response t i k m rest = record t {
    completions = rest;
    ctx = record t.ctx {
      in_buf = update t.ctx.in_buf k m;
      out_buf = update t.ctx.out_buf i blank_message;
      in_use_send = update t.ctx.in_use_send i false;
      curr_recv_buff = dec_int t.ctx.curr_recv_buff;
    };
  }

  client_handle_recv-get :
      (k : ℕ) (m : Message ServerHeaders) (s : Client)
      → s.ctx.in_buf k ≡ m
      → m.headers.response ≡ get_response
      → client_handle_recv k s ≡ client_handle_get_response m s
  unfolding client_handle_recv
  client_handle_recv-get k m s at kind =
      rw (ap (λ n. n.headers.response) at ∙ kind) (ap (λ n. client_handle_get_response n s) at)

  module _ (t : Client) (i k : ℕ) (m : Message ServerHeaders) (rest : List (Option (List Wc)))
      (p : ℕ) (r : ClientRequest) (n : ℕ) (value : List ℕ)
      (w : Awaits t i k m rest p r n value) where
    pub responds :
        (client_handle_get_response m (at_response t i k m rest)
          ≡ done (tt, answered (at_response t i k m rest) m p r))
        × (c_string (received t m).len (received t m).byte ≡ some value)
    responds =
        client_handle_get_response_lem m p n r value (at_response t i k m rest) w.found w.live
          w.allocated w.some_value w.fits w.within w.text

    handle_completions-response :
        handle_completions
          (sent_wc i ∷ response_wc k m ∷ [])
          0
          (record t { completions = rest; ctx = record t.ctx { in_buf = update t.ctx.in_buf k m } })
        ≡ done (some 2, after_response t i k m rest p r)
    unfolding handle_completions free_send_buffer refill_recv_buffers release_receive_buffer
        release_send_buffer
    handle_completions-response = rw (
      w.stocked,
      client_handle_recv-get k m (at_response t i k m rest) (rw (==_refl k)) w.kind,
      responds.0,
    )

    ibv_poll_cq-response :
        ibv_poll_cq t
        ≡ done (
          some (sent_wc i ∷ response_wc k m ∷ []),
          record t { completions = rest; ctx = record t.ctx { in_buf = update t.ctx.in_buf k m } },
        )
    unfolding ibv_poll_cq deposit
    ibv_poll_cq-response = rw w.next

  wait_loop-enough : (rounds : ℕ) (s : Client) → wait_loop rounds 1 2 s ≡ done (true, s)
  unfolding wait_loop
  wait_loop-enough zero s = refl
  wait_loop-enough (suc rounds) s = refl

  module _ (t : Client) (i k : ℕ) (m : Message ServerHeaders) (rest : List (Option (List Wc)))
      (p : ℕ) (r : ClientRequest) (n : ℕ) (value : List ℕ) (w : Awaits t i k m rest p r n value)
      (rounds : ℕ) where
    client_wait_completions-response :
        client_wait_completions (suc rounds) 1 t ≡ done (true, after_response t i k m rest p r)
    unfolding client_wait_completions wait_loop
    client_wait_completions-response =
        let after_poll : Option (List Wc) → Exec Client Bool = λ polled. elim polled [
          | none ↦ do modify λ s. record s { immediate_shutdown = true }; wait_loop rounds 1 0
          | some wc ↦ do
            handled ← handle_completions wc 0
            elim handled [ none ↦ pure false | some n ↦ wait_loop rounds 1 n ]
        ] in
        branch-false t.immediate_shutdown (exit 1) (ibv_poll_cq >>= after_poll) t w.running
        ∙ rw
            (
              ibv_poll_cq-response t i k m rest p r n value w,
              handle_completions-response t i k m rest p r n value w,
            )
            (wait_loop-enough rounds (after_response t i k m rest p r))

    pub wait_reply-response :
        (left : ℕ)
        → r.is_pending ≡ true
        → wait_reply (suc rounds) (suc (suc left)) p t ≡ done (tt, after_response t i k m rest p r)
    unfolding wait_reply load
    wait_reply-response left pending =
        rw (w.live, pending, client_wait_completions-response, ==_refl p)
