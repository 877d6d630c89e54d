-- ===== src/Client/Requests/Table.antt =====
-- Adding to and removing from the table of client_internals/client_requests_management.c.
use rdma_rendezvous_key_valu.Prelude.{
  ℕ, suc, ◌≤◌, ◌≡◌, ◌≢◌, refl, inl, inr, true, [], Option, none, some, update, ℤ, pos, int_eq,
  arith, Bool-cases, Option-cases, int_eq_sound, int_eq_refl,
}
use rdma_rendezvous_key_valu.Prelude.Exec.{done, exited}
use rdma_rendezvous_key_valu.Platform.{Platform}
use rdma_rendezvous_key_valu.Client.Requests.{
  ClientRequest, Queue, blank_request, add_client_pending_request, remove_client_pending_request,
}

module _ ⦃x : Platform⦄ where
  open x use {tids}

  -- The request that an id leads to, through the table and the heap.
  abbrev at : Option ℕ → Queue → Option ClientRequest
  at none q = none
  at (some p) q = q.requests p

  abbrev pub request_of : ℕ → Queue → Option ClientRequest
  request_of tid q = at (x.tids.find (pos tid) q.internal_q) q

  -- Every pointer in the table is that of a live request with its key's id, and no pointer is that
  -- of a later allocation.
  pub record IsTable (q : Queue) : Type 0 where
    pub live :
        (k : ℤ) (p : ℕ)
        → x.tids.find k q.internal_q ≡ some p
        → (r : ClientRequest) × (q.requests p ≡ some r) × (r.tid ≡ k)
    pub old : (k : ℤ) (p : ℕ) → x.tids.find k q.internal_q ≡ some p → p ≤ q.calls

  abbrev added : ℕ → Queue → Queue
  added tid q = record {
    internal_q = x.tids.add (pos tid) (suc q.calls) q.internal_q;
    requests =
        update q.requests (suc q.calls)
          (some (record blank_request { tid = pos tid; key = some [] }));
    calls = suc (suc q.calls);
  }

  added_at :
      (tid : ℕ) (q : Queue)
      → x.tids.find (pos tid) q.internal_q ≡ none
      → request_of tid (added tid q) ≡ some (record blank_request { tid = pos tid; key = some [] })
  added_at tid q e =
      rw (x.tids.find-add (pos tid) (pos tid) (suc q.calls) q.internal_q e) (ground arith)

  added_other :
      (tid j : ℕ) (q : Queue)
      → IsTable q
      → x.tids.find (pos tid) q.internal_q ≡ none
      → tid ≢ j
      → request_of j (added tid q) ≡ request_of j q
  added_other tid j q v e h =
      rw (x.tids.find-add (pos tid) (pos j) (suc q.calls) q.internal_q e)
        (elim (Option-cases (x.tids.find (pos j) q.internal_q)) [
          | inl missing ↦ ground arith
          | inr (p, found) ↦ ground (arith, v.old (pos j) p found)
        ])

  IsTable-added :
      (tid : ℕ) (q : Queue)
      → IsTable q
      → x.tids.find (pos tid) q.internal_q ≡ none
      → IsTable (added tid q)
  IsTable-added tid q v e = record {
    live = λ k p h. elim (Bool-cases (int_eq (pos tid) k)) [
      | inl own ↦ (
        record blank_request { tid = pos tid; key = some [] },
        ground (arith, x.tids.find-add (pos tid) k (suc q.calls) q.internal_q e),
        int_eq_sound (pos tid) k own,
      )
      | inr other ↦
          let found : x.tids.find k q.internal_q ≡ some p =
            ground (arith, x.tids.find-add (pos tid) k (suc q.calls) q.internal_q e) in
          let (r, stored, key) = v.live k p found in (r, ground (arith, v.old k p found), key)
    ];
    old = λ k p h.
        ground (arith, x.tids.find-add (pos tid) k (suc q.calls) q.internal_q e, v.old k p);
  }

  -- In a well-formed table: adding an id that is pending ends the client with the status -1.
  -- Adding a new id, when both allocations succeed, makes a request with that id and an empty key,
  -- which the id then leads to; every other id leads to the request it led to before, and the
  -- table stays well formed.
  pub add_client_pending_request_lem :
      (tid : ℕ) (q : Queue)
      → IsTable q
      → ((p : ℕ)
          → x.tids.find (pos tid) q.internal_q ≡ some p
          → add_client_pending_request tid q ≡ exited 255)
        × (x.tids.find (pos tid) q.internal_q ≡ none
            → x.calloc q.calls ≡ true
            → x.calloc (suc q.calls) ≡ true
            → (q' : Queue) × (add_client_pending_request tid q ≡ done (tt, q'))
              × (request_of tid q' ≡ some (record blank_request { tid = pos tid; key = some [] }))
              × ((j : ℕ) → tid ≢ j → request_of j q' ≡ request_of j q)
              × IsTable q')
  unfolding add_client_pending_request
  add_client_pending_request_lem tid q v = (
    λ p e. rw e,
    λ e a b. (
      added tid q,
      rw (e, a, b),
      added_at tid q e,
      λ j h. added_other tid j q v e h,
      IsTable-added tid q v e,
    ),
  )

  abbrev removed : ℕ → ℕ → Queue → Queue
  removed tid p q = record q {
    internal_q = x.tids.del (pos tid) q.internal_q;
    requests = update q.requests p none;
  }

  -- Two ids with one pointer are one.
  same_key :
      (q : Queue) (k l : ℤ) (p : ℕ)
      → IsTable q
      → x.tids.find k q.internal_q ≡ some p
      → x.tids.find l q.internal_q ≡ some p
      → k ≡ l
  same_key q k l p v a b =
      let (r, stored, key) = v.live k p a in let (r', stored', key') = v.live l p b in cc

  find-removed :
      (tid p : ℕ) (q : Queue) (k : ℤ) (p' : ℕ)
      → IsTable q
      → x.tids.find (pos tid) q.internal_q ≡ some p
      → x.tids.find k (removed tid p q).internal_q ≡ some p'
      → (x.tids.find k q.internal_q ≡ some p') × (p ≢ p')
  find-removed tid p q k p' v found h = elim (Bool-cases (int_eq (pos tid) k)) [
    | inl own ↦ ground (arith, x.tids.find-del (pos tid) k q.internal_q)
    | inr other ↦
        let kept : x.tids.find k q.internal_q ≡ some p' =
          ground (arith, x.tids.find-del (pos tid) k q.internal_q) in
        (kept, λ e. cc (same_key q (pos tid) k p v found (rw e kept), int_eq_refl (pos tid)))
  ]

  removed_other :
      (tid p j : ℕ) (q : Queue)
      → IsTable q
      → x.tids.find (pos tid) q.internal_q ≡ some p
      → tid ≢ j
      → request_of j (removed tid p q) ≡ request_of j q
  removed_other tid p j q v found h =
      rw (x.tids.find-del (pos tid) (pos j) q.internal_q)
        (elim (Option-cases (x.tids.find (pos j) q.internal_q)) [
          | inl missing ↦ ground arith
          | inr (p', at_j) ↦
              let apart : p ≢ p' =
                λ e. ground (arith, same_key q (pos tid) (pos j) p v found (rw e at_j)) in
              ground (arith, apart)
        ])

  IsTable-removed :
      (tid p : ℕ) (q : Queue)
      → IsTable q
      → x.tids.find (pos tid) q.internal_q ≡ some p
      → IsTable (removed tid p q)
  IsTable-removed tid p q v found = record {
    live = λ k p' h.
        let (kept, apart) = find-removed tid p q k p' v found h in
        let (r, stored, key) = v.live k p' kept in (r, ground (arith, apart), key);
    old = λ k p' h. v.old k p' (find-removed tid p q k p' v found h).0;
  }

  -- Removing a request from a well-formed table always succeeds. Its id then leads to nothing and
  -- its memory is freed; every other id leads to the request it led to before, and the table stays
  -- well formed.
  pub remove_client_pending_request_lem :
      (tid : ℕ) (q : Queue)
      → IsTable q
      → (q' : Queue) × (remove_client_pending_request tid q ≡ done (tt, q'))
        × (x.tids.find (pos tid) q'.internal_q ≡ none)
        × ((p : ℕ) → x.tids.find (pos tid) q.internal_q ≡ some p → q'.requests p ≡ none)
        × ((j : ℕ) → tid ≢ j → request_of j q' ≡ request_of j q)
        × IsTable q'
  unfolding remove_client_pending_request
  remove_client_pending_request_lem tid q v =
      elim (Option-cases (x.tids.find (pos tid) q.internal_q)) [
        | inl missing ↦ (q, rw missing, missing, λ p e. cc, λ j h. refl, v)
        | inr (p, found) ↦
            let (r, stored, key) = v.live (pos tid) p found in
            (
              removed tid p q,
              rw (found, stored),
              rw (x.tids.find-del (pos tid) (pos tid) q.internal_q) (ground arith),
              λ p' e. ground arith,
              λ j h. removed_other tid p j q v found h,
              IsTable-removed tid p q v found,
            )
      ]
