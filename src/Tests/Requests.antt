-- ===== src/Tests/Requests.antt =====
-- The queue of pending requests, a client that leaves, a request that is copied, and an RDMA_FIN.
use rdma_rendezvous_key_valu.Prelude.{
  ℕ, ◌<◌, ◌≤◌, ◌==◌, ◌≡◌, refl, false, [], ◌∷◌, none, some, if◌then◌else◌, arith, pos, update,
  zeroed, c_string, advance, Bytes, ltb, List,
}
use rdma_rendezvous_key_valu.Prelude.Exec.{done}
use rdma_rendezvous_key_valu.Platform.Instance.{test_platform}
use rdma_rendezvous_key_valu.Common.Constants.{recv_wrid, set_request}
use rdma_rendezvous_key_valu.Common.Message.{ClientHeaders, WrIdInfo}
use rdma_rendezvous_key_valu.Server.Pool.{no_pool}
use rdma_rendezvous_key_valu.Server.Store.{Request, ReqRest, no_reqs, Store}
use rdma_rendezvous_key_valu.Server.Requests.{
  push_back_pending_request, pop_pending_request, invalidate_requests_by_qp, fill_request,
  copied_length, request_room,
}
use rdma_rendezvous_key_valu.Server.Requests.Fifo.{queued, pop-push}
use rdma_rendezvous_key_valu.Server.Requests.Fin.{invalidate_requests_by_qp-Foreign}
use rdma_rendezvous_key_valu.Server.Requests.Truncated.{
  copied, filled, fill_request_lem, pending_value_lost,
}
use rdma_rendezvous_key_valu.Tests.Entries.{database, db_with, read_locked}

abbrev two : ReqRest
two = record no_reqs.rest { sorted_q = 3 ∷ 7 ∷ [] }

pop-push_example :
    (queued two ≡ [] → pop_pending_request two ≡ done (none, two))
    × ((s1 : ReqRest) × (push_back_pending_request 9 two ≡ done (tt, s1))
        × (queued s1 ≡ 3 ∷ 7 ∷ 9 ∷ [])
        × ((p : ℕ) (ps : List ℕ)
            → 3 ∷ 7 ∷ 9 ∷ [] ≡ p ∷ ps
            → (s2 : ReqRest) × (pop_pending_request s1 ≡ done (some p, s2)) × (queued s2 ≡ ps)))
pop-push_example = pop-push 9 two refl

abbrev headers : ClientHeaders
headers = record { opcode = set_request; tid = 8; keylen = 3; buflen = 5 }

abbrev info : WrIdInfo
info = record { wr_id = 2; wr_type = recv_wrid }

-- A request of the queue pair 40 that waits for an RDMA_FIN.
abbrev pub waiting : Request
waiting = record {
  tid = pos 8;
  info = info;
  is_pending = false;
  entry = some 1;
  headers = headers;
  buffer = some zeroed;
  qp = some 40;
  qp_num = 40;
}

-- It waits at 2, and a request of the queue pair 41 is pending at 3.
abbrev waiting_store : Store
waiting_store = record {
  db = database;
  reqs = record {
    rest = record {
      internal_q = (pos 9, 3) ∷ [];
      waiting_fin_q = (pos 8, 2) ∷ [];
      sorted_q = 3 ∷ [];
      requests =
          update (update (λ p. none) 2 (some waiting)) 3
            (some (record waiting { tid = pos 9; qp = some 41; qp_num = 41 }));
      calls = 5;
    };
    pool = no_pool;
  };
}

invalidate_requests_by_qp-Foreign_example :
    invalidate_requests_by_qp 40 waiting_store ≡ done (tt, waiting_store)
invalidate_requests_by_qp-Foreign_example =
    invalidate_requests_by_qp-Foreign 40 waiting_store
      ((record waiting { tid = pos 9; qp = some 41; qp_num = 41 }, refl, λ h. omega (arith, h)), tt)

abbrev letters : Bytes
letters i = if i == 3 then 0 else 97

copied_room : copied_length headers ≤ request_room
unfolding copied_length
copied_room = omega arith

fill_request_lem_example :
    (fill_request 2 8 info headers letters 40 waiting_store.reqs.rest
      ≡ done (tt, filled 2 8 info headers letters 40 waiting_store.reqs.rest waiting zeroed))
    × (34 ≤ 4072
        → (i : ℕ) → i < 34
        → copied 2 8 info headers letters 40 waiting_store.reqs.rest waiting zeroed i ≡ letters i)
    × (4072 < 34
        → (i : ℕ)
        → copied 2 8 info headers letters 40 waiting_store.reqs.rest waiting zeroed i
          ≡ (if ltb i 3 then letters i else zeroed i))
fill_request_lem_example =
    fill_request_lem 2 8 info headers letters 40 waiting_store.reqs.rest waiting zeroed refl refl
      (omega arith) copied_room

-- A value of 4059 characters and its terminator.
abbrev long_headers : ClientHeaders
long_headers = record headers { buflen = 4060 }

pending_value_lost_example :
    c_string 4068
      (advance (copied 2 8 info long_headers letters 40 waiting_store.reqs.rest waiting zeroed) 4)
    ≡ some []
pending_value_lost_example =
    pending_value_lost 2 8 info long_headers letters 40 waiting_store.reqs.rest waiting zeroed 4067
      refl refl (omega arith) (omega arith)

abbrev held_store : Store
held_store = record waiting_store { db = record database { rest = db_with read_locked } }
