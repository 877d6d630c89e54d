-- ===== src/Tests/Calls.antt =====
-- kv_set and kv_get of the key "k", and the server's part in them.
use rdma_rendezvous_key_valu.Prelude.{
  ℕ, ◌≡◌, ◌<◌, refl, true, false, [], ◌∷◌, some, none, arith, pos, List, IsCString, c_string,
  advance,
}
use rdma_rendezvous_key_valu.Prelude.Exec.{done, crash}
use rdma_rendezvous_key_valu.Platform.Instance.{test_platform}
use rdma_rendezvous_key_valu.Common.Constants.{client_request_payload_len, send_wrid}
use rdma_rendezvous_key_valu.Common.Message.{Message, ClientHeaders, ServerHeaders}
use rdma_rendezvous_key_valu.Common.Context.{send_wr}
use rdma_rendezvous_key_valu.Common.Buffers.{scan, get_free_send_idx}
use rdma_rendezvous_key_valu.Server.Db.{Buffer, Entry, DbRest}
use rdma_rendezvous_key_valu.Server.State.{Server}
use rdma_rendezvous_key_valu.Server.Handlers.{handle_set_request, handle_get_request, fits_request}
use rdma_rendezvous_key_valu.Server.Handlers.Set.{Stored, in_rest_state}
use rdma_rendezvous_key_valu.Client.Tid.{TidCounter, zero_tid, get_new_tid}
use rdma_rendezvous_key_valu.Client.Requests.{num_pending_requests}
use rdma_rendezvous_key_valu.Client.State.{Client}
use rdma_rendezvous_key_valu.Client.Api.{kv_set, kv_get}
use rdma_rendezvous_key_valu.Client.Api.Set.{set_message, after_set, kv_set-eager}
use rdma_rendezvous_key_valu.Client.Api.Wait.{sent_wc, response_wc}
use rdma_rendezvous_key_valu.Client.Api.Get.{get_message, kv_get-answered}
use rdma_rendezvous_key_valu.Exchange.Calls.{response_of, set_call, get_call}
use rdma_rendezvous_key_valu.Tests.Entries.{entry, bytes, abc, entry-IsLocked}
use rdma_rendezvous_key_valu.Tests.Clients.{client, ab, read_ab as read_response}
use rdma_rendezvous_key_valu.Tests.Handlers.{
  server, info, searched, ab_bytes, ab_entry, server-IsIdle, server-HasRoom, search_ctx, read_ab,
}

abbrev k : List ℕ
k = 107 ∷ []

k-IsCString : IsCString k
k-IsCString = (λ h. ground arith, tt)

abc-IsCString : IsCString abc
abc-IsCString = (λ h. ground arith, (λ h. ground arith, (λ h. ground arith, tt)))

-- The first id after the initial one.
abbrev next : TidCounter
next = record { client_id = 0; last_used_tid = 1 }

first_tid : get_new_tid zero_tid ≡ done (8, next)
unfolding get_new_tid
first_tid = refl

client_search : get_free_send_idx client.ctx ≡ done (some 0, client.ctx)
unfolding get_free_send_idx scan
client_search = refl

few : num_pending_requests client.queue < 250
unfolding num_pending_requests
few = omega arith

kv_set-eager_example :
    (kv_set 1 k abc client ≡ done (true, after_set k abc 8 next 0 client client.ctx))
    × (c_string 4072 (set_message k abc 8 0 client.ctx).buffer ≡ some k)
    × (c_string 4070 (advance (set_message k abc 8 0 client.ctx).buffer 2) ≡ some abc)
    × (fits_request 3 1 ≡ true)
kv_set-eager_example =
    kv_set-eager 0 k abc client 0 client.ctx 8 next k-IsCString abc-IsCString (omega arith)
      client_search few first_tid refl

set_call_example :
    (client' : Client) × (m : Message ClientHeaders) × (r : DbRest) × (e' : Entry) × (b' : Buffer)
    × (kv_set 1 k abc client ≡ done (true, client'))
    × (client'.ctx.posted ≡ send_wr 40 30 (record { wr_id = 0; wr_type = send_wrid }) m ∷ [])
    × (handle_set_request 0 crash 41 m.headers client_request_payload_len m.buffer info
          (server entry)
        ≡ done (false, in_rest_state (server entry) r))
    × Stored (server entry) 1 entry bytes abc r e' b'
set_call_example =
    set_call 0 crash k abc client 0 client.ctx 8 next (server entry) 41 info 1 entry bytes
      k-IsCString abc-IsCString (omega arith) client_search few first_tid refl server-HasRoom
      entry-IsLocked refl (server-IsIdle entry)

-- The response "ab" to the id 8, for the client's first request.
abbrev ab_for_8 : Message ServerHeaders
ab_for_8 = record ab { headers = record ab.headers { tid = 8 } }

abbrev waiting : Message ServerHeaders → Client
waiting m = record client { completions = some (sent_wc 0 ∷ response_wc 3 m ∷ []) ∷ [] }

kv_get-answered_example :
    (b : Buffer) × (s' : Client) × (kv_get 2 k (waiting ab_for_8) ≡ done (some (some b), s'))
    × (c_string b.len b.byte ≡ some (97 ∷ 98 ∷ []))
    × (s'.ctx.posted
        ≡ send_wr 40 26 (record { wr_id = 0; wr_type = send_wrid }) (get_message k 8 0 client.ctx)
          ∷ [])
    × (test_platform.tids.find (pos 8) s'.queue.internal_q ≡ none)
    × (s'.ctx.in_use_send 0 ≡ false)
kv_get-answered_example =
    kv_get-answered 0 k 8 next 0 (waiting ab_for_8) client.ctx 3 ab_for_8 [] 3 (97 ∷ 98 ∷ [])
      (omega arith) client_search first_tid refl refl refl refl refl refl refl refl refl refl
      (omega arith) (omega arith) (omega arith) read_response

abbrev asking : Client
asking = waiting (response_of (get_message k 8 0 client.ctx) ab_entry ab_bytes 1 searched)

get_call_example :
    (s' : Server) × (client' : Client) × (g : Message ClientHeaders) × (a : Buffer)
    × (handle_get_request 1 crash 41 g.headers client_request_payload_len g.buffer info
          (server ab_entry)
        ≡ done (false, s'))
    × (s'.ctx.posted
        ≡ send_wr 41 44
            (record { wr_id = 1; wr_type = send_wrid })
            (response_of g ab_entry ab_bytes 1 searched)
          ∷ [])
    × (kv_get 2 k asking ≡ done (some (some a), client'))
    × (client'.ctx.posted ≡ send_wr 40 26 (record { wr_id = 0; wr_type = send_wrid }) g ∷ [])
    × (c_string a.len a.byte ≡ some (97 ∷ 98 ∷ []))
get_call_example =
    get_call 0 crash k (97 ∷ 98 ∷ []) asking 0 3 client.ctx 8 next [] (server ab_entry) 41 info 1
      ab_entry ab_bytes 1 searched k-IsCString (omega arith) client_search first_tid refl refl
      (λ n. refl) refl refl refl refl (record { reads = refl; writes = refl; alone = omega arith })
      refl (omega arith) (omega arith) read_ab (omega arith) refl (omega arith) search_ctx refl
      (server-IsIdle ab_entry) refl
