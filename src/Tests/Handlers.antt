-- ===== src/Tests/Handlers.antt =====
-- SET and GET requests for the key "k", their way to the client, and connections.
use rdma_rendezvous_key_valu.Prelude.{
  ℕ, ◌<◌, ◌==◌, ◌≡◌, ◌≢◌, ◌⊎◌, refl, false, [], ◌∷◌, Option, none, some, arith, pos, zeroed, Bytes,
  splice, c_string, advance,
}
use rdma_rendezvous_key_valu.Prelude.Exec.{done, fault, crash}
use rdma_rendezvous_key_valu.Common.Constants.{get_request, send_wrid, recv_wrid, set_request}
use rdma_rendezvous_key_valu.Common.Message.{
  Message, ServerHeaders, ClientHeaders, WrIdInfo, blank_message, client_blank, server_blank,
}
use rdma_rendezvous_key_valu.Common.Context.{send_wr}
use rdma_rendezvous_key_valu.Client.Completions.Handling.{client_handle_get_response}
use rdma_rendezvous_key_valu.Client.Completions.Response.{answered, received}
use rdma_rendezvous_key_valu.Exchange.{set_get_round_trip}
use rdma_rendezvous_key_valu.Tests.Clients.{client, fresh}
use rdma_rendezvous_key_valu.Platform.Instance.{test_platform}
use rdma_rendezvous_key_valu.Common.Buffers.{scan, get_free_send_idx}
use rdma_rendezvous_key_valu.Server.Pool.{no_pool}
use rdma_rendezvous_key_valu.Server.Db.{Entry, DbRest, Buffer}
use rdma_rendezvous_key_valu.Server.Db.Locks.{IsLocked, SameData}
use rdma_rendezvous_key_valu.Server.Db.Insert.{HasRoom}
use rdma_rendezvous_key_valu.Server.Store.{no_reqs}
use rdma_rendezvous_key_valu.Server.Requests.{search_tid}
use rdma_rendezvous_key_valu.Server.Requests.Fin.{IsIdle}
use rdma_rendezvous_key_valu.Server.State.{Ctx, Server, no_connection}
use rdma_rendezvous_key_valu.Server.Connections.{add_new_connection}
use rdma_rendezvous_key_valu.Server.Connections.Slots.{connected, add_new_connection_lem}
use rdma_rendezvous_key_valu.Server.Handlers.{handle_set_request, handle_get_request}
use rdma_rendezvous_key_valu.Server.Handlers.Set.{Names, entries_of}
use rdma_rendezvous_key_valu.Server.Handlers.Get.{replied, after_reply, handle_get_request-reply}
use rdma_rendezvous_key_valu.Tests.Entries.{
  bytes, entry, read_locked, db_with, entry-IsLocked, read_locked-IsLocked, abc,
}

abbrev ctx : Ctx
ctx = record {
  in_buf = λ i. blank_message;
  out_buf = λ i. blank_message;
  max_recv_buff = pos 1000;
  curr_recv_buff = pos 1000;
  last_used_recv_buff = 0;
  last_used_send_buff = 0;
  in_use_recv = λ i. false;
  in_use_send = λ i. i == 0;
  posted = [];
}

abbrev pub server : Entry → Server
server e = record {
  store = record { db = record { rest = db_with e; pool = no_pool }; reqs = no_reqs };
  ctx = ctx;
  connections = λ i. no_connection;
  current_number_conns = pos 0;
  last_client_id = pos 0;
  last_qp_state_check = 0;
  completions = [];
  calls = 0;
}

-- "k" and "abc", each with its terminator.
abbrev pub request : Bytes
request = splice zeroed 0 (107 ∷ 0 ∷ 97 ∷ 98 ∷ 99 ∷ 0 ∷ [])

abbrev pub headers : ClientHeaders
headers = record { opcode = set_request; tid = 8; keylen = 1; buflen = 4 }

abbrev pub info : WrIdInfo
info = record { wr_id = 2; wr_type = recv_wrid }

entry-Names : Names (server entry) 6 request (107 ∷ []) 1 entry
unfolding c_string
entry-Names = record { key_read = refl; found = refl; at = refl; locked = entry-IsLocked }

pub read_locked-Names : Names (server read_locked) 6 request (107 ∷ []) 1 read_locked
unfolding c_string
read_locked-Names = record {
  key_read = refl;
  found = refl;
  at = refl;
  locked = read_locked-IsLocked;
}

pub server-IsIdle : (e : Entry) → IsIdle 8 (server e).store.reqs.rest
unfolding search_tid
server-IsIdle e = record { unqueued = refl; unwaited = refl; unpending = refl }

pub server-HasRoom : HasRoom (server entry).store.db (107 ∷ []) 1 entry bytes abc
server-HasRoom = record {
  nonempty = λ h. cc;
  found = refl;
  at = refl;
  buffer = refl;
  allocated = omega arith;
  room = omega arith;
  short = omega arith;
}

read_value : c_string 4 (advance request 2) ≡ some abc
unfolding c_string
read_value = refl

abbrev pub searched : Ctx
searched = record ctx { last_used_send_buff = 1 }

pub search_ctx : get_free_send_idx ctx ≡ done (some 1, searched)
unfolding get_free_send_idx scan
search_ctx = refl

handle_get_request-reply_example :
    (r : DbRest) × (e' : Entry) × (handle_get_request 1 crash 40 headers 6 request info
        (server read_locked)
      ≡ done (
        false,
        after_reply 1 crash 40 headers 6 request info
            (server read_locked)
            (107 ∷ [])
            1
            read_locked
            bytes
            1
            searched
            r,
      ))
    × (r.entries 1 ≡ some e')
    × IsLocked e'
    × SameData read_locked e'
    × (e'.num_readers ≡ 2)
    × (e'.num_writers ≡ 0)
    × ((q : ℕ) → 1 ≢ q → r.entries q ≡ entries_of (server read_locked) q)
    × ((k : ℕ)
        → k < 2
        → (replied 1 crash 40 headers 6 request info
              (server read_locked)
              (107 ∷ [])
              1
              read_locked
              bytes
              1
              searched).buffer
            k
          ≡ bytes.byte k)
handle_get_request-reply_example =
    handle_get_request-reply 0 crash 40 headers 6 request info (server read_locked) (107 ∷ []) 1
      read_locked bytes 1 searched read_locked-Names refl (omega arith) (omega arith) refl
      (omega arith) search_ctx refl (server-IsIdle read_locked)

add_new_connection_lem_example :
    ((i : ℕ) × (add_new_connection 40 (pos 1000) (pos 1000) (server entry)
        ≡ done (i, connected 40 (pos 1000) (pos 1000) i (server entry)))
      × (i < 4)
      × ◌≡◌ {A = Option ℕ} none none)
    ⊎ (((j : ℕ) → j < 4 → ◌≢◌ {A = Option ℕ} none none)
        × (add_new_connection 40 (pos 1000) (pos 1000) (server entry) ≡ fault))
add_new_connection_lem_example = add_new_connection_lem 40 (pos 1000) (pos 1000) (server entry)

-- The value "ab", in the buffer of an entry that two clients read.
abbrev pub ab_bytes : Buffer
ab_bytes = record { addr = 7; len = 100; byte = splice zeroed 0 (97 ∷ 98 ∷ 0 ∷ []) }

abbrev pub ab_entry : Entry
ab_entry = record read_locked { value = some ab_bytes; size = 3 }

abbrev pub get_headers : ClientHeaders
get_headers = record { opcode = get_request; tid = 5; keylen = 1; buflen = 0 }

ab_entry-Names : Names (server ab_entry) 6 request (107 ∷ []) 1 ab_entry
unfolding c_string
ab_entry-Names = record {
  key_read = refl;
  found = refl;
  at = refl;
  locked = record { reads = refl; writes = refl; alone = omega arith };
}

ab_entry-IsIdle : IsIdle 5 (server ab_entry).store.reqs.rest
unfolding search_tid
ab_entry-IsIdle = record { unqueued = refl; unwaited = refl; unpending = refl }

pub read_ab : c_string 3 ab_bytes.byte ≡ some (97 ∷ 98 ∷ [])
unfolding c_string
read_ab = refl

pub read_key : c_string 6 request ≡ some (107 ∷ [])
unfolding c_string
read_key = refl

set_get_round_trip_example :
    (s1 s2 : Server) × (m : Message ServerHeaders) × (handle_set_request 1 crash 40 headers 6
        request info
        (server entry)
      ≡ done (false, s1))
    × (handle_get_request 1 crash 40 get_headers 6 request info s1 ≡ done (false, s2))
    × (s2.ctx.posted ≡ send_wr 40 45 (record { wr_id = 1; wr_type = send_wrid }) m ∷ [])
    × (client_handle_get_response m client ≡ done (tt, answered client m 1 fresh))
    × (c_string (received client m).len (received client m).byte ≡ some abc)
set_get_round_trip_example =
    set_get_round_trip 0 crash (server entry) headers get_headers 6 request request info info
      (107 ∷ []) abc 1 entry bytes 40 40 1 searched client 1 fresh entry-Names server-HasRoom refl
      refl read_value (server-IsIdle entry) read_key (omega arith) (omega arith) search_ctx refl
      ab_entry-IsIdle refl refl refl
