-- ===== src/Server/Requests/Waiting.antt =====
-- The requests that wait for an RDMA_FIN: mark_rdma_fin_required, and what an RDMA_FIN takes back.
use rdma_rendezvous_key_valu.Prelude.{
  ℕ, ◌≡◌, ◌≢◌, refl, false, List, [], ◌∷◌, Option, none, some, update, arith, pos, int_eq, ℤ, elem,
  ==_refl, Bool-cases, Option-cases, inl, inr,
}
use rdma_rendezvous_key_valu.Prelude.Exec.{done}
use rdma_rendezvous_key_valu.Platform.{Platform}
use rdma_rendezvous_key_valu.Server.Pool.Stock.{HasNext, taken, get_empty_buffer-HasNext}
use rdma_rendezvous_key_valu.Server.Db.{DbRest}
use rdma_rendezvous_key_valu.Server.Db.Items.{db_get}
use rdma_rendezvous_key_valu.Server.Store.{Request, ReqRest, Reqs, Store}
use rdma_rendezvous_key_valu.Server.Requests.{
  load, store, search_tid, max_allocated_entries, request_empty_buffer, mark_rdma_fin_required,
}
use rdma_rendezvous_key_valu.Server.Requests.Fin.{IsIdle, fin_received}

module _ ⦃x : Platform⦄ where
  -- The preallocated request r at q is the next one, there are enough that none is allocated now,
  -- and it is in no queue.
  pub record IsSpare (s : Reqs) (f : ℕ → Option ℕ) (q : ℕ) (r : Request) : Type 0 where
    pub stock : HasNext max_allocated_entries s.pool f q
    pub live : s.rest.requests q ≡ some r
    pub unqueued : elem q (x.chains.to_list s.rest.sorted_q) ≡ false

  pub request_empty_buffer-IsSpare :
      (s : Reqs) (f : ℕ → Option ℕ) (q : ℕ) (r : Request)
      → IsSpare s f q r
      → request_empty_buffer s ≡ done (some q, taken s f)
  unfolding request_empty_buffer
  request_empty_buffer-IsSpare s f q r h =
      get_empty_buffer-HasNext max_allocated_entries _ _ s f q h.stock

  -- A search that finds nothing has read every request.
  search_tid-rest :
      (tid : ℤ) (s : ReqRest) (p : ℕ) (ps : List ℕ)
      → search_tid tid (p ∷ ps) s ≡ done (none, s)
      → (r : Request) × (s.requests p ≡ some r)
        × (int_eq r.tid tid ≡ false)
        × (search_tid tid ps s ≡ done (none, s))
  unfolding search_tid load
  search_tid-rest tid s p ps run = elim (Option-cases (s.requests p)) [
    | inl missing ↦ cc (rw missing at run)
    | inr (r, at) ↦ elim (Bool-cases (int_eq r.tid tid)) [
      | inl same ↦ cc (rw (at, same) at run)
      | inr other ↦ (r, at, other, rw (at, other) at run)
    ]
  ]

  search_tid-elsewhere :
      (tid : ℤ) (q : ℕ) (s t : ReqRest) (ps : List ℕ)
      → ((p : ℕ) → q ≢ p → t.requests p ≡ s.requests p)
      → elem q ps ≡ false
      → search_tid tid ps s ≡ done (none, s)
      → search_tid tid ps t ≡ done (none, t)
  unfolding search_tid load
  search_tid-elsewhere tid q s t [] h e run = refl
  search_tid-elsewhere tid q s t (p ∷ ps) h e run =
      let (r, at, other, rest) = search_tid-rest tid s p ps run in
      let (ne, e') : (q ≢ p) × (elem q ps ≡ false) = ground (arith, e) in
      rw (h p ne, at, other) (search_tid-elsewhere tid q s t ps h e' rest)

  module _ (tid q : ℕ) (f : ℕ → Option ℕ) (r : Request) (p qp_num : ℕ) where
    abbrev pub registered : Request
    registered = record r { tid = pos tid; entry = some p; qp_num = qp_num }

    -- The store once the request at q waits for the RDMA_FIN of that id.
    abbrev pub waiting : Store → Store
    waiting s = record s {
      reqs = record (taken s.reqs f) {
        rest = record s.reqs.rest {
          requests = update s.reqs.rest.requests q (some registered);
          waiting_fin_q = x.tids.add (pos tid) q s.reqs.rest.waiting_fin_q;
        };
      };
    }

    pub mark_rdma_fin_required_lem :
        (key : List ℕ) (s : Store)
        → IsSpare s.reqs f q r
        → x.tids.find (pos tid) s.reqs.rest.waiting_fin_q ≡ none
        → x.keys.find key s.db.rest.internal_db ≡ some p
        → mark_rdma_fin_required tid key qp_num s ≡ done (tt, waiting s)
    unfolding mark_rdma_fin_required load store db_get
    mark_rdma_fin_required_lem key s h unwaited found =
        rw (unwaited, request_empty_buffer-IsSpare s.reqs f q r h, found, h.live)

    pub find-waiting :
        (s : Store)
        → x.tids.find (pos tid) s.reqs.rest.waiting_fin_q ≡ none
        → x.tids.find (pos tid) (waiting s).reqs.rest.waiting_fin_q ≡ some q
    find-waiting s h =
        rw (x.tids.find-add (pos tid) (pos tid) q s.reqs.rest.waiting_fin_q h, ==_refl tid)

    -- Once the RDMA_FIN has come, the id has no request again.
    pub fin_received-IsIdle :
        (d : DbRest) (s : Store)
        → IsSpare s.reqs f q r
        → IsIdle tid s.reqs.rest
        → IsIdle tid (fin_received tid q d (waiting s)).reqs.rest
    fin_received-IsIdle d s h idle =
        let t = (fin_received tid q d (waiting s)).reqs.rest in
        record {
          unqueued =
              search_tid-elsewhere (pos tid) q s.reqs.rest t (x.chains.to_list s.reqs.rest.sorted_q)
                (λ j ne. ground (arith, ne)) h.unqueued idle.unqueued;
          unwaited = rw (
            x.tids.find-del (pos tid) (pos tid) (waiting s).reqs.rest.waiting_fin_q,
            ==_refl tid,
          );
          unpending = idle.unpending;
        }
