-- ===== src/Server/Requests.antt =====
-- server_internals/server_requests_management.c. The pool of preallocated requests is that of
-- Server/Pool.antt.
pub mod Fifo
pub mod Fin
pub mod Truncated
pub mod Waiting
pub mod Push
use rdma_rendezvous_key_valu.Prelude.{
  ℕ, zero, suc, ◌+◌, ◌-◌, ◌*◌, ◌/◌, ◌%◌, ◌^◌, Bool, true, false, not, ◌&&◌, List, [], ◌∷◌, Option,
  none, some, ltb, leb, ◌==◌, if◌then◌else◌, update, length, Bytes, zeroed, splice, read_bytes, ℤ,
  pos, negsuc, int_eq,
}
use rdma_rendezvous_key_valu.Prelude.Exec.{
  Outcome, done, exited, fault, Exec, pure, exit, gets, modify, deref, assert, when, zoom, ◌>>=◌,
  ◌>>◌,
}
use rdma_rendezvous_key_valu.Platform.{Platform}
use rdma_rendezvous_key_valu.Common.Constants.{
  client_request_payload_len, client_header_len, other_wrid, zero_opcode,
}
use rdma_rendezvous_key_valu.Common.Message.{ClientHeaders, WrIdInfo, client_blank}
use rdma_rendezvous_key_valu.Server.Pool.{Pool, Pooled, in_rest, get_empty_buffer}
use rdma_rendezvous_key_valu.Server.Db.{roundup}
use rdma_rendezvous_key_valu.Server.Db.Items.{db_get}
use rdma_rendezvous_key_valu.Server.Db.RwLocks.{db_entry_unlock}
use rdma_rendezvous_key_valu.Server.Store.{
  Request, RequestState, ReqRest, Reqs, Store, in_db, in_reqs, in_entries, in_queues,
}

-- (uint16_t) of an `int`
abbrev pub to_u16 : ℤ → ℕ
to_u16 (pos n) = n % 65536
to_u16 (negsuc n) = 65535 - n % 65536

module _ ⦃x : Platform⦄ where
  abbrev pub max_allocated_entries : ℕ
  max_allocated_entries = 100000

  -- The length of the buffer of a request.
  abbrev pub request_room : ℕ
  request_room = roundup x.page_size client_request_payload_len

  -- *p, *p = r and free(p)
  unfoldable pub load : ℕ → Exec ReqRest Request
  load p s = deref (s.requests p) s

  unfoldable pub store : ℕ → Request → Exec ReqRest (Unit {0})
  store p r = modify λ s. record s { requests = update s.requests p (some r) }

  unfoldable pub free : ℕ → Exec ReqRest (Unit {0})
  free p = modify λ s. record s { requests = update s.requests p none }

  unfoldable pub calloc : Exec ReqRest (Option ℕ)
  calloc s =
      done (if x.calloc s.calls then some (suc s.calls) else none, record s { calls = suc s.calls })

  abbrev blank_info : WrIdInfo
  blank_info = record { wr_id = 0; wr_type = other_wrid }

  -- The body of the loop of reallocate_entries. The calloc of the buffer is not tested.
  unfoldable pub new_request : Exec ReqRest ℕ
  unfolding calloc store
  new_request = do
    curr_entry ← calloc
    elim curr_entry [
      | none ↦ exit 1
      | some p ↦ do
        buffer ← calloc
        store p (record {
          tid = pos 0;
          info = blank_info;
          is_pending = false;
          entry = none;
          headers = client_blank.blank;
          buffer = elim buffer [ none ↦ none | some a ↦ some zeroed ];
          qp = none;
          qp_num = 0;
        })
        pure p
    ]

  calloc_array : Exec ReqRest Bool
  unfolding calloc
  calloc_array = do a ← calloc; pure (elim a [ none ↦ false | some p ↦ true ])

  unfoldable pub request_empty_buffer : Exec Reqs (Option ℕ)
  unfolding calloc_array
  request_empty_buffer = get_empty_buffer max_allocated_entries calloc_array new_request

  -- DL_APPEND(sorted_q, req)
  unfoldable pub push_back_pending_request : ℕ → Exec ReqRest (Unit {0})
  push_back_pending_request req = modify λ s. record s { sorted_q = x.chains.append req s.sorted_q }

  unfoldable pub get_server_pending_request : ℕ → Exec ReqRest (Option ℕ)
  get_server_pending_request tid = gets λ s. x.tids.find (pos tid) s.internal_q

  unfoldable pub add_server_pending_request : ℕ → Exec Reqs (Unit {0})
  unfolding load store
  add_server_pending_request tid = do
    found ← request_empty_buffer
    p ← deref found
    in_rest do
      s ← load p
      store p (record s { tid = pos tid; entry = none })
      modify λ q. record q {
        internal_q = x.tids.add (pos tid) p q.internal_q;
        sorted_q = x.chains.append p q.sorted_q;
      }

  -- The bogus request has the transaction id -1.
  unfoldable pub server_pending_requests_init : Exec Reqs (Unit {0})
  unfolding load store
  server_pending_requests_init = do
    in_rest (modify λ q. record q { internal_q = x.tids.empty; sorted_q = x.chains.empty })
    found ← request_empty_buffer
    elim found [
      | none ↦ exit 255
      | some p ↦ in_rest do
        s ← load p
        store p (record s { tid = negsuc 0 })
        modify λ q. record q { internal_q = x.tids.add (negsuc 0) p q.internal_q }
    ]

  -- 0 is `true`, and -1 `false`.
  unfoldable pub mark_rdma_fin_received : ℕ → Exec Store Bool
  unfolding load free
  mark_rdma_fin_received tid = do
    found ← in_queues (gets λ q. x.tids.find (pos tid) q.waiting_fin_q)
    elim found [
      | none ↦ pure false
      | some p ↦ do
        request ← in_queues (load p)
        entry ← deref request.entry
        in_entries (db_entry_unlock entry)
        in_queues
            do modify λ q. record q { waiting_fin_q = x.tids.del (pos tid) q.waiting_fin_q }; free p
        pure true
    ]

  -- DL_SEARCH(sorted_q, tmp, &temp_el, request_compare), over the elements that are left
  unfoldable pub search_tid : ℤ → List ℕ → Exec ReqRest (Option ℕ)
  unfolding load
  search_tid tid [] = pure none
  search_tid tid (p ∷ ps) = do
    s ← load p
    if int_eq s.tid tid then pure (some p) else search_tid tid ps

  unfoldable pub remove_from_sorted : ℤ → Exec ReqRest (Unit {0})
  remove_from_sorted tid = do
    elements ← gets λ q. x.chains.to_list q.sorted_q
    tmp ← search_tid tid elements
    elim tmp [
      | none ↦ pure tt
      | some p ↦ modify λ q. record q { sorted_q = x.chains.delete p q.sorted_q }
    ]

  -- if (s->entry) db_entry_unlock(s->entry)
  abbrev unlock_entry : Option ℕ → Exec Store Bool
  unlock_entry none = pure true
  unlock_entry (some entry) = in_entries (db_entry_unlock entry)

  unfoldable pub remove_server_pending_request : ℕ → Exec Store (Unit {0})
  unfolding load free
  remove_server_pending_request tid = do
    in_queues (remove_from_sorted (pos tid))
    mark_rdma_fin_received tid
    found ← in_queues (gets λ q. x.tids.find (pos tid) q.internal_q)
    elim found [
      | none ↦ pure tt
      | some p ↦ do
        s ← in_queues (load p)
        unlock_entry s.entry
        in_queues do modify λ q. record q { internal_q = x.tids.del (pos tid) q.internal_q }; free p
    ]

  -- The memcpy into the request's buffer: all of the request if it is short enough, else the key.
  unfoldable pub copied_length : ClientHeaders → ℕ
  copied_length headers =
      let size = (client_header_len + headers.keylen + headers.buflen + 2) % 2 ^ 64 in
      if leb size client_request_payload_len then size else headers.keylen

  unfoldable pub fill_request :
      ℕ → ℕ → WrIdInfo → ClientHeaders → Bytes → ℕ → Exec ReqRest (Unit {0})
  unfolding load store
  fill_request p tid info headers buffer qp = do
    req ← load p
    b ← deref req.buffer
    assert (leb (copied_length headers) request_room)
    store p (record req {
      is_pending = true;
      tid = pos tid;
      info = info;
      headers = headers;
      qp = some qp;
      qp_num = qp;
      buffer = some (splice b 0 (read_bytes buffer (copied_length headers)));
    })

  unfoldable pub push_pending_request :
      ℕ → WrIdInfo → ClientHeaders → Bytes → ℕ → Exec Reqs (Unit {0})
  push_pending_request tid info headers buffer qp = do
    req ← in_rest (get_server_pending_request tid)
    elim req [
      | some p ↦ in_rest (push_back_pending_request p)
      | none ↦ do
        add_server_pending_request tid
        added ← in_rest (get_server_pending_request tid)
        p ← deref added
        in_rest (fill_request p tid info headers buffer qp)
    ]

  unfoldable pub pop_pending_request : Exec ReqRest (Option ℕ)
  pop_pending_request = do
    elements ← gets λ q. x.chains.to_list q.sorted_q
    elim elements [
      | [] ↦ pure none
      | res ∷ rest ↦ do
        modify λ q. record q { sorted_q = x.chains.delete res q.sorted_q }
        pure (some res)
    ]

  unfoldable pub pending_req_count : ReqRest → ℕ
  pending_req_count q = length (x.chains.to_list q.sorted_q)

  unfoldable pub mark_rdma_fin_required : ℕ → List ℕ → ℕ → Exec Store (Unit {0})
  unfolding load store
  mark_rdma_fin_required tid key qp_num = do
    found ← in_queues (gets λ q. x.tids.find (pos tid) q.waiting_fin_q)
    elim found [
      | none ↦ pure tt
      | some p ↦ do old ← in_queues (load p); remove_server_pending_request (to_u16 old.tid)
    ]
    fresh ← in_reqs request_empty_buffer
    p ← deref fresh
    entry ← in_db (db_get key)
    in_queues do
      request ← load p
      store p (record request { tid = pos tid; entry = entry; qp_num = qp_num })
      modify λ q. record q { waiting_fin_q = x.tids.add (pos tid) p q.waiting_fin_q }

  -- HASH_ITER over internal_q, whose next element is read before the current one is removed.
  unfoldable pub invalidate_each : ℕ → List ℕ → Exec Store (Unit {0})
  unfolding load
  invalidate_each qp_num [] = pure tt
  invalidate_each qp_num (p ∷ ps) = do
    current_entry ← in_queues (load p)
    if current_entry.qp_num == qp_num
        then remove_server_pending_request (to_u16 current_entry.tid)
        else pure tt
    invalidate_each qp_num ps

  unfoldable pub invalidate_requests_by_qp : ℕ → Exec Store (Unit {0})
  unfolding invalidate_each
  invalidate_requests_by_qp qp_num = do
    elements ← in_queues (gets λ q. x.tids.iter q.internal_q)
    invalidate_each qp_num elements
