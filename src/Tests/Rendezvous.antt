-- ===== src/Tests/Rendezvous.antt =====
-- A SET and a GET for the key "k" whose values do not fit a message, up to their RDMA_FIN.
use rdma_rendezvous_key_valu.Prelude.{
  ℕ, ◌+◌, ◌≡◌, ◌≢◌, ◌≤◌, refl, true, false, [], ◌∷◌, Option, none, some, arith, update, c_string,
  ◌==◌, if◌then◌else◌, zeroed, pos,
}
use rdma_rendezvous_key_valu.Prelude.Exec.{done, crash}
use rdma_rendezvous_key_valu.Common.Constants.{rdma_fin_client}
use rdma_rendezvous_key_valu.Common.Message.{ClientHeaders}
use rdma_rendezvous_key_valu.Platform.Instance.{test_platform}
use rdma_rendezvous_key_valu.Server.Db.{Entry, DbRest, Buffer, Mr}
use rdma_rendezvous_key_valu.Server.Db.Locks.{IsLocked, SameData}
use rdma_rendezvous_key_valu.Server.Db.Resize.{IsRegistered}
use rdma_rendezvous_key_valu.Server.Store.{Request, Reqs, no_reqs}
use rdma_rendezvous_key_valu.Server.Requests.{search_tid, copied_length}
use rdma_rendezvous_key_valu.Server.Requests.Fin.{IsIdle}
use rdma_rendezvous_key_valu.Server.Requests.Waiting.{IsSpare}
use rdma_rendezvous_key_valu.Server.State.{Server}
use rdma_rendezvous_key_valu.Server.Handlers.{
  handle_set_request, handle_get_request, handle_rdma_fin,
}
use rdma_rendezvous_key_valu.Server.Handlers.Set.{Names, entries_of}
use rdma_rendezvous_key_valu.Server.Handlers.Held.{
  in_reqs_state, handle_set_request-held, handle_set_request-again,
}
use rdma_rendezvous_key_valu.Server.Requests.Push.{Pushed, Kept, CanPush}
use rdma_rendezvous_key_valu.Server.Handlers.Released.{FinNames}
use rdma_rendezvous_key_valu.Server.Handlers.Offer.{
  CanOffer, after_offer, handle_rdma_fin-handle_get_request,
}
use rdma_rendezvous_key_valu.Server.Handlers.Space.{
  CanAnswer, after_space, handle_rdma_fin-handle_set_request,
}
use rdma_rendezvous_key_valu.Tests.Entries.{entry, read_locked, bytes}
use rdma_rendezvous_key_valu.Tests.Handlers.{
  server, request, headers, info, get_headers, searched, search_ctx, read_key, read_locked-Names,
}
use rdma_rendezvous_key_valu.Tests.Requests.{waiting}

abbrev slots : ℕ → Option ℕ
slots i = if i == 0 then some 2 else none

abbrev spare : Request
spare = record waiting { entry = none; qp = none }

abbrev reqs : Reqs
reqs = record {
  rest = record no_reqs.rest { requests = update (λ p. none) 2 (some spare) };
  pool = record { slots = some slots; current_num = 100000; free_buffer_idx = 0 };
}

reqs-IsSpare : IsSpare reqs slots 2 spare
reqs-IsSpare = record {
  stock = record { slots = refl; enough = omega arith; inside = omega arith; next = refl };
  live = refl;
  unqueued = refl;
}

-- The server with one entry and spare requests.
abbrev ready : Entry → Server
ready e = record (server e) { store = record (server e).store { reqs = reqs } }

ready-IsIdle : (e : Entry) (tid : ℕ) → IsIdle tid (ready e).store.reqs.rest
unfolding search_tid
ready-IsIdle e tid = record { unqueued = refl; unwaited = refl; unpending = refl }

abbrev region : Mr
region = record { rkey = 33; addr = 7; len = 100 }

-- An entry with a value of 5000 bytes that two clients read.
abbrev large_entry : Entry
large_entry = record read_locked {
  value = some (record bytes { len = 20480 });
  allocated_size = 20480;
  size = 5000;
  mr = some (record region { len = 20480 });
}

abbrev get_fin : ClientHeaders
get_fin = record { opcode = rdma_fin_client; tid = 5; keylen = 1; buflen = 0 }

request-FinNames : FinNames get_fin request (107 ∷ [])
unfolding c_string
request-FinNames = record { inside = omega arith; key_read = refl }

large_entry-CanOffer :
    CanOffer 0 crash 40 get_headers 6 request info
      (ready large_entry)
      (107 ∷ [])
      1
      large_entry
      (record region { len = 20480 })
      1
      searched
      slots
      2
      spare
large_entry-CanOffer = record {
  names = record {
    key_read = read_key;
    found = refl;
    at = refl;
    locked = record { reads = refl; writes = refl; alone = omega arith };
  };
  named = refl;
  mr = refl;
  large = omega arith;
  small = omega arith;
  free = search_ctx;
  posted = refl;
  idle = ready-IsIdle large_entry 5;
  spare = reqs-IsSpare;
}

abbrev offered : Entry → Server
offered e1 =
    after_offer 0 crash 40 get_headers 6 request info (ready large_entry) (107 ∷ []) 1 large_entry
      region 1 searched slots 2 spare e1

handle_rdma_fin-handle_get_request_example :
    (e1 e2 : Entry) × (s2 : Server) × (handle_get_request 1 crash 40 get_headers 6 request info
        (ready large_entry)
      ≡ done (false, offered e1))
    × IsLocked e1
    × SameData large_entry e1
    × (e1.num_readers ≡ 3)
    × (handle_rdma_fin 1 crash 40 get_fin request (offered e1) ≡ done (true, s2))
    × (s2.ctx ≡ (offered e1).ctx)
    × (entries_of s2 1 ≡ some e2)
    × IsLocked e2
    × SameData large_entry e2
    × (e2.num_readers ≡ 2)
    × (e2.num_writers ≡ 0)
    × ((k : ℕ) → 1 ≢ k → entries_of s2 k ≡ entries_of (ready large_entry) k)
    × IsIdle 5 s2.store.reqs.rest
handle_rdma_fin-handle_get_request_example =
    handle_rdma_fin-handle_get_request 0 crash 40 get_headers 6 request info (ready large_entry)
      (107 ∷ []) 1 large_entry (record region { len = 20480 }) 1 searched slots 2 spare get_fin
      request large_entry-CanOffer refl (omega arith) refl request-FinNames

-- A SET of 5000 bytes.
abbrev large_headers : ClientHeaders
large_headers = record headers { buflen = 5000 }

abbrev set_fin : ClientHeaders
set_fin = record get_fin { tid = 8 }

abbrev registered_entry : Entry
registered_entry = record entry { mr = some region }

registered_entry-CanAnswer :
    CanAnswer 0 crash 40 large_headers 6 request info
      (ready registered_entry)
      (107 ∷ [])
      1
      registered_entry
      bytes
      region
      110
      1
      searched
      slots
      2
      spare
registered_entry-CanAnswer = record {
  names = record {
    key_read = read_key;
    found = refl;
    at = refl;
    locked = record { reads = refl; writes = refl; alone = omega arith };
  };
  named = refl;
  registered = record {
    buffer = refl;
    region = refl;
    start = refl;
    in_buffer = omega arith;
    in_region = omega arith;
  };
  large = refl;
  page = omega arith;
  alloc = refl;
  reg = refl;
  free = search_ctx;
  posted = refl;
  idle = ready-IsIdle registered_entry 8;
  spare = reqs-IsSpare;
}

set_fin-FinNames : FinNames set_fin request (107 ∷ [])
unfolding c_string
set_fin-FinNames = record { inside = omega arith; key_read = refl }

handle_rdma_fin-handle_set_request_example :
    (d : DbRest) × (s1 s2 : Server) × (e2 e3 : Entry) × (b' : Buffer) × (m' : Mr)
    × (handle_set_request 1 crash 40 large_headers 6 request info (ready registered_entry)
        ≡ done (false, s1))
    × (s1
        ≡ after_space 0 crash 40 large_headers
            (ready registered_entry)
            (107 ∷ [])
            1
            1
            searched
            slots
            2
            spare
            d
            b'
            m')
    × (entries_of s1 1 ≡ some e2)
    × IsRegistered e2 b' m'
    × (5000 ≤ b'.len)
    × (5000 ≤ m'.len)
    × (e2.size ≡ 5000)
    × (e2.num_writers ≡ 1)
    × (handle_rdma_fin 1 crash 40 set_fin request s1 ≡ done (true, s2))
    × (s2.ctx ≡ s1.ctx)
    × (entries_of s2 1 ≡ some e3)
    × IsLocked e3
    × SameData e2 e3
    × (e3.num_readers + e3.num_writers ≡ 0)
    × ((k : ℕ) → 1 ≢ k → entries_of s2 k ≡ entries_of (ready registered_entry) k)
    × IsIdle 8 s2.store.reqs.rest
handle_rdma_fin-handle_set_request_example =
    handle_rdma_fin-handle_set_request 0 crash 40 large_headers 6 request info
      (ready registered_entry) (107 ∷ []) 1 registered_entry bytes region 110 1 searched slots 2
      spare set_fin request registered_entry-CanAnswer refl refl set_fin-FinNames

abbrev with_reqs : Reqs → Server
with_reqs s = record (server read_locked) { store = record (server read_locked).store { reqs = s } }

-- "k" as the key of a SET, while a reader holds its entry.
ready-Names : (s : Reqs) → Names (with_reqs s) 6 request (107 ∷ []) 1 read_locked
ready-Names s = record {
  key_read = read_locked-Names.key_read;
  found = refl;
  at = refl;
  locked = read_locked-Names.locked;
}

reqs-CanPush : CanPush reqs 8 headers slots 2 spare zeroed
unfolding copied_length
reqs-CanPush = record { unpending = refl; spare = reqs-IsSpare; held = refl; room = omega arith }

handle_set_request-held_example :
    (t : Reqs) × (r' : Request) × (handle_set_request 1 crash 40 headers 6 request info
        (with_reqs reqs)
      ≡ done (true, in_reqs_state (with_reqs reqs) t))
    × Pushed reqs 8 2 t
    × (t.rest.requests 2 ≡ some r')
    × Kept 8 info headers request 40 r'
handle_set_request-held_example =
    handle_set_request-held 1 crash 40 headers 6 request info (with_reqs reqs) (107 ∷ []) 1
      read_locked (ready-Names reqs) (omega arith) slots 2 spare zeroed reqs-CanPush

-- The request 2 is pending, and was taken from the queue.
abbrev retried : Reqs
retried = record reqs { rest = record reqs.rest { internal_q = (pos 8, 2) ∷ [] } }

handle_set_request-again_example :
    (t : Reqs) × (handle_set_request 1 crash 40 headers 6 request info (with_reqs retried)
      ≡ done (true, in_reqs_state (with_reqs retried) t))
    × Pushed retried 8 2 t
    × (t.rest.requests 2 ≡ some spare)
    × (t.pool ≡ retried.pool)
handle_set_request-again_example =
    handle_set_request-again 1 crash 40 headers 6 request info (with_reqs retried) (107 ∷ []) 1
      read_locked (ready-Names retried) (omega arith) 2 refl refl
