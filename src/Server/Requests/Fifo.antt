-- ===== src/Server/Requests/Fifo.antt =====
-- The queue of pending requests of server_requests_management.c.
use rdma_rendezvous_key_valu.Prelude.{
  ℕ, suc, ◌≡◌, refl, ◌∙◌, false, List, [], ◌∷◌, ◌++◌, none, some, elem, ==_refl,
}
use rdma_rendezvous_key_valu.Prelude.Exec.{done}
use rdma_rendezvous_key_valu.Platform.{Platform}
use rdma_rendezvous_key_valu.Server.Store.{ReqRest}
use rdma_rendezvous_key_valu.Server.Requests.{
  push_back_pending_request, pop_pending_request, pending_req_count,
}

module _ ⦃x : Platform⦄ where
  -- The pending requests, oldest first.
  abbrev pub queued : ReqRest → List ℕ
  queued s = x.chains.to_list s.sorted_q

  pub pop_pending_request_lem :
      (s : ReqRest)
      → (queued s ≡ [] → pop_pending_request s ≡ done (none, s))
        × ((p : ℕ) (ps : List ℕ)
            → queued s ≡ p ∷ ps
            → (s' : ReqRest) × (pop_pending_request s ≡ done (some p, s'))
              × (queued s' ≡ ps)
              × (pending_req_count s ≡ suc (pending_req_count s')))
  unfolding pop_pending_request pending_req_count
  pop_pending_request_lem s = (
    λ e. rw e,
    λ p ps e. (
      record s { sorted_q = x.chains.delete p s.sorted_q },
      rw e,
      deleted p ps s e,
      rw (e, deleted p ps s e),
    ),
  )
    where
      deleted :
          (p : ℕ) (ps : List ℕ) (s : ReqRest)
          → queued s ≡ p ∷ ps
          → x.chains.to_list (x.chains.delete p s.sorted_q) ≡ ps
      deleted p ps s e =
          rw (x.chains.to_list-delete p s.sorted_q (rw e (rw (==_refl p))), e) (rw (==_refl p))

  -- Popping an empty queue returns NULL and changes nothing. A request that is not queued yet goes
  -- behind the others: a pop then returns the oldest request, and leaves the others in their order
  -- with the new one last.
  pub pop-push :
      (req : ℕ) (s : ReqRest)
      → elem req (queued s) ≡ false
      → (queued s ≡ [] → pop_pending_request s ≡ done (none, s))
        × ((s1 : ReqRest) × (push_back_pending_request req s ≡ done (tt, s1))
            × (queued s1 ≡ queued s ++ req ∷ [])
            × ((p : ℕ) (ps : List ℕ)
                → queued s ++ req ∷ [] ≡ p ∷ ps
                → (s2 : ReqRest) × (pop_pending_request s1 ≡ done (some p, s2)) × (queued s2 ≡ ps)))
  unfolding push_back_pending_request
  pop-push req s absent =
      let s1 : ReqRest = record s { sorted_q = x.chains.append req s.sorted_q } in
      let appended = x.chains.to_list-append req s.sorted_q absent in
      (
        (pop_pending_request_lem s).0,
        (
          s1,
          refl,
          appended,
          λ p ps e.
              let (s2, popped, left, count) = (pop_pending_request_lem s1).1 p ps (appended ∙ e) in
              (s2, popped, left),
        ),
      )
