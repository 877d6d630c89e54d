-- ===== src/Client/Api/Set.antt =====
-- kv_set of client.c on a value that fits the request.
use rdma_rendezvous_key_valu.Prelude.{
  ℕ, suc, ◌+◌, ◌-◌, ◌%◌, ◌≤◌, ◌<◌, ◌≡◌, true, List, [], ◌∷◌, ◌++◌, some, arith, length, update,
  splice, advance, c_string, IsCString, c_string-first, length-terminated, c_string-second, le→leb,
  ==_refl,
}
use rdma_rendezvous_key_valu.Prelude.Exec.{done}
use rdma_rendezvous_key_valu.Platform.{Platform}
use rdma_rendezvous_key_valu.Common.Constants.{
  client_header_len, client_request_payload_len, send_wrid, set_request,
}
use rdma_rendezvous_key_valu.Common.Message.{Message, ClientHeaders}
use rdma_rendezvous_key_valu.Common.Context.{send_wr}
use rdma_rendezvous_key_valu.Common.Buffers.{get_free_send_idx, acquire_send_buffer}
use rdma_rendezvous_key_valu.Server.Db.{u32}
use rdma_rendezvous_key_valu.Server.Handlers.{fits_request}
use rdma_rendezvous_key_valu.Client.Tid.{TidCounter, get_new_tid}
use rdma_rendezvous_key_valu.Client.Requests.{num_pending_requests}
use rdma_rendezvous_key_valu.Client.State.{Ctx, Client}
use rdma_rendezvous_key_valu.Client.Completions.{write_request, client_post_send}
use rdma_rendezvous_key_valu.Client.Api.{kv_set, wait_send_idx, wait_pending, write_strings}

module _ ⦃x : Platform⦄ where
  -- The message for a key and a value, in the buffer i.
  abbrev pub set_message : List ℕ → List ℕ → ℕ → ℕ → Ctx → Message ClientHeaders
  set_message key value tid i c = record {
    headers = record {
      tid = tid;
      opcode = set_request;
      keylen = length key;
      buflen = length value;
    };
    buffer = splice (c.out_buf i).buffer 0 (key ++ (0 ∷ (value ++ 0 ∷ [])));
  }

  pub wait_send_idx-free :
      (rounds left i : ℕ) (s : Client) (c : Ctx)
      → get_free_send_idx s.ctx ≡ done (some i, c)
      → wait_send_idx rounds (suc left) s ≡ done (i, record s { ctx = c })
  unfolding wait_send_idx
  wait_send_idx-free rounds left i s c free = rw free

  wait_pending-few :
      (rounds left : ℕ) (s : Client)
      → num_pending_requests s.queue < 250
      → wait_pending rounds (suc left) s ≡ done (tt, s)
  unfolding wait_pending
  wait_pending-few rounds left s few = ground arith

  -- The client when that message is posted.
  abbrev pub after_set : List ℕ → List ℕ → ℕ → TidCounter → ℕ → Client → Ctx → Client
  after_set key value tid next i s c =
      let m = set_message key value tid i c in
      record s {
        ctx = record c {
          in_use_send = update c.in_use_send i true;
          out_buf = update c.out_buf i m;
          posted =
              send_wr s.qp_num (client_header_len + (length key + 1) + length value + 1)
                (record { wr_id = i; wr_type = send_wrid }) m
              ∷ c.posted;
        };
        last_used_tid = next;
        calls = suc s.calls;
      }

  -- A pair of strings that fits the request, with a send buffer free, fewer than 250 pending
  -- requests and a post that the adapter takes: kv_set returns 0 without waiting. It has posted one
  -- message, of the length of its header and of both strings with their terminators, and no request
  -- of its own is pending. From this message the server reads the key, then the value, and that
  -- both fit.
  pub kv_set-eager :
      (rounds : ℕ) (key value : List ℕ) (s : Client) (i : ℕ) (c : Ctx) (tid : ℕ) (next : TidCounter)
      → IsCString key
      → IsCString value
      → length key + length value + 2 ≤ client_request_payload_len
      → get_free_send_idx s.ctx ≡ done (some i, c)
      → num_pending_requests s.queue < 250
      → get_new_tid s.last_used_tid ≡ done (tid, next)
      → x.ibv_post_send s.calls s.qp_num ≡ 0
      → (kv_set (suc rounds) key value s ≡ done (true, after_set key value tid next i s c))
        × (c_string client_request_payload_len (set_message key value tid i c).buffer ≡ some key)
        × (c_string
              (client_request_payload_len - (length key + 1))
              (advance (set_message key value tid i c).buffer (length key + 1))
            ≡ some value)
        × (fits_request (length value % u32) (length key) ≡ true)
  unfolding kv_set write_strings acquire_send_buffer client_post_send write_request
  kv_set-eager rounds key value s i c tid next ck cv fit free few new posted = (
    rw (
      wait_send_idx-free (suc rounds) rounds i s c free,
      wait_pending-few (suc rounds) rounds (record s { ctx = c }) few,
      new,
      le→leb (length key + 1 + length value + 1) client_request_payload_len (omega arith),
      le→leb (length (key ++ (0 ∷ (value ++ 0 ∷ [])))) client_request_payload_len
          (omega (arith, length-terminated key (value ++ 0 ∷ []), length-terminated value [])),
      ==_refl i,
      posted,
    ),
    c_string-first key (value ++ 0 ∷ []) client_request_payload_len (c.out_buf i).buffer ck
        (omega arith),
    c_string-second key value (client_request_payload_len - (length key + 1)) (c.out_buf i).buffer
        cv (omega arith),
    ground arith,
  )
