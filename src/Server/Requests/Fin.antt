-- ===== src/Server/Requests/Fin.antt =====
-- remove_server_pending_request and the locks that wait for a client's RDMA_FIN.
use rdma_rendezvous_key_valu.Prelude.{
  false, ℕ, ◌≡◌, ◌≢◌, refl, List, [], ◌∷◌, none, some, pos, All, ne→==_false, ◌-◌, ◌+◌, ◌<◌,
  ==_refl, update, arith, inl, inr, true,
}
use rdma_rendezvous_key_valu.Prelude.Exec.{done}
use rdma_rendezvous_key_valu.Platform.{Platform}
use rdma_rendezvous_key_valu.Server.Db.{DbRest, Entry}
use rdma_rendezvous_key_valu.Server.Db.RwLocks.{db_entry_unlock}
use rdma_rendezvous_key_valu.Server.Db.Locks.{IsLocked, SameData, with_entry, db_entry_unlock_lem}
use rdma_rendezvous_key_valu.Server.Store.{Request, ReqRest, Store}
use rdma_rendezvous_key_valu.Server.Requests.{
  load, invalidate_each, invalidate_requests_by_qp, search_tid, remove_from_sorted,
  mark_rdma_fin_received, remove_server_pending_request,
}

module _ ⦃x : Platform⦄ where
  -- No request with that id is queued, pending or waiting for an RDMA_FIN.
  pub record IsIdle (tid : ℕ) (q : ReqRest) : Type 0 where
    pub unqueued : search_tid (pos tid) (x.chains.to_list q.sorted_q) q ≡ done (none, q)
    pub unwaited : x.tids.find (pos tid) q.waiting_fin_q ≡ none
    pub unpending : x.tids.find (pos tid) q.internal_q ≡ none

  pub remove_idle :
      (tid : ℕ) (s : Store)
      → IsIdle tid s.reqs.rest
      → remove_server_pending_request tid s ≡ done (tt, s)
  unfolding remove_server_pending_request remove_from_sorted mark_rdma_fin_received
  remove_idle tid s h = rw (h.unqueued, h.unwaited, h.unpending)

  -- That the request at p is live and of another queue pair.
  abbrev pub Foreign : ℕ → ReqRest → ℕ → Type 0
  Foreign qp_num q p = (r : Request) × (q.requests p ≡ some r) × (r.qp_num ≢ qp_num)

  invalidate_each-Foreign :
      (qp_num : ℕ) (s : Store) (ps : List ℕ)
      → All (Foreign qp_num s.reqs.rest) ps
      → invalidate_each qp_num ps s ≡ done (tt, s)
  unfolding invalidate_each load
  invalidate_each-Foreign qp_num s [] h = refl
  invalidate_each-Foreign qp_num s (p ∷ ps) ((r, at, ne), rest) =
      rw (at, ne→==_false r.qp_num qp_num ne) (invalidate_each-Foreign qp_num s ps rest)

  -- Invalidating the requests of a queue pair looks at the pending requests alone: if they are all
  -- live and none of them is of that queue pair, nothing changes. So a request that waits for an
  -- RDMA_FIN of that queue pair goes on waiting, and the lock that it holds on its entry is not
  -- released.
  pub invalidate_requests_by_qp-Foreign :
      (qp_num : ℕ) (s : Store)
      → All (Foreign qp_num s.reqs.rest) (x.tids.iter s.reqs.rest.internal_q)
      → invalidate_requests_by_qp qp_num s ≡ done (tt, s)
  unfolding invalidate_requests_by_qp
  invalidate_requests_by_qp-Foreign qp_num s h =
      invalidate_each-Foreign qp_num s (x.tids.iter s.reqs.rest.internal_q) h

  -- The store after the request p of that id has left the table of waiting requests.
  abbrev pub fin_received : ℕ → ℕ → DbRest → Store → Store
  fin_received tid p d s = record {
    db = record s.db { rest = d };
    reqs = record s.reqs {
      rest = record s.reqs.rest {
        waiting_fin_q = x.tids.del (pos tid) s.reqs.rest.waiting_fin_q;
        requests = update s.reqs.rest.requests p none;
      };
    };
  }

  pub fin_received_lem :
      (tid p q : ℕ) (r : Request) (e' : Entry) (s : Store)
      → x.tids.find (pos tid) s.reqs.rest.waiting_fin_q ≡ some p
      → s.reqs.rest.requests p ≡ some r
      → r.entry ≡ some q
      → db_entry_unlock q s.db.rest ≡ done (true, with_entry s.db.rest q e')
      → mark_rdma_fin_received tid s ≡ done (true, fin_received tid p (with_entry s.db.rest q e') s)
  unfolding mark_rdma_fin_received load
  fin_received_lem tid p q r e' s found at names step = rw (found, at, names, step)

  -- An RDMA_FIN for a request that waits, on an entry that is held and whose counters agree with
  -- its lock, returns 0. The entry has one holder less, a reader if there was one, and its data is
  -- as before. The request is freed and no longer waits, so that a second RDMA_FIN for it returns
  -- -1 and changes nothing; the table of waiting requests has the other ids as before.
  pub mark_rdma_fin_received_lem :
      (tid p q : ℕ) (r : Request) (e : Entry) (s : Store)
      → x.tids.find (pos tid) s.reqs.rest.waiting_fin_q ≡ some p
      → s.reqs.rest.requests p ≡ some r
      → r.entry ≡ some q
      → s.db.rest.entries q ≡ some e
      → IsLocked e
      → 0 < e.num_readers + e.num_writers
      → (s' : Store) × (e' : Entry) × (mark_rdma_fin_received tid s ≡ done (true, s'))
        × (mark_rdma_fin_received tid s' ≡ done (false, s'))
        × (s'.db.rest.entries q ≡ some e')
        × IsLocked e'
        × SameData e e'
        × (e'.num_readers ≡ e.num_readers - 1)
        × (e'.num_writers ≡ e.num_writers - (1 - e.num_readers))
        × (s'.reqs.rest.requests p ≡ none)
        × ((j : ℕ)
            → tid ≢ j
            → x.tids.find (pos j) s'.reqs.rest.waiting_fin_q
              ≡ x.tids.find (pos j) s.reqs.rest.waiting_fin_q)
  unfolding mark_rdma_fin_received load
  mark_rdma_fin_received_lem tid p q r e s found at names stored v held =
      elim (db_entry_unlock_lem q e s.db.rest stored v) [
        | inl (free, _) ↦ absurd (omega arith)
        | inr (_, (e', step, v', (same, readers, writers))) ↦ (
          fin_received tid p (with_entry s.db.rest q e') s,
          e',
          fin_received_lem tid p q r e' s found at names step,
          rw (x.tids.find-del (pos tid) (pos tid) s.reqs.rest.waiting_fin_q, ==_refl tid),
          rw (==_refl q),
          v',
          same,
          readers,
          writers,
          rw (==_refl p),
          λ j ne.
              rw
                (x.tids.find-del (pos tid) (pos j) s.reqs.rest.waiting_fin_q, ne→==_false tid j ne),
        )
      ]
