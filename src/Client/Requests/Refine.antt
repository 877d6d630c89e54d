-- ===== src/Client/Requests/Refine.antt =====
-- client_internals/client_requests_management.c against a map from ids to requests.
use rdma_rendezvous_key_valu.Prelude.{
  ℕ, suc, ◌≡◌, ◌≢◌, refl, subst, ◌∙◌, inl, inr, true, List, [], ◌∷◌, Option, none, some, update,
  pos, arith, Bool-cases, Option-cases, ◌==◌,
}
use rdma_rendezvous_key_valu.Prelude.Exec.{Outcome, done, exited, Exec, pure, ◌>>◌}
use rdma_rendezvous_key_valu.Platform.{Platform}
use rdma_rendezvous_key_valu.Client.Requests.{
  ClientRequest, Queue, blank_request, add_client_pending_request, remove_client_pending_request,
}
use rdma_rendezvous_key_valu.Client.Requests.Table.{
  IsTable, request_of, add_client_pending_request_lem, remove_client_pending_request_lem,
}

pub data TableOp : Type 0 where
  add remove : (tid : ℕ) → TableOp

-- The pending request of each id.
abbrev pub PendingMap : Type 0
PendingMap = ℕ → Option ClientRequest

abbrev pub new_request : ℕ → ClientRequest
new_request tid = record blank_request { tid = pos tid; key = some [] }

-- `none` is the end of the process.
abbrev pub insert_new : ℕ → Option ClientRequest → PendingMap → Option PendingMap
insert_new tid none m = some (update m tid (some (new_request tid)))
insert_new tid (some r) m = none

abbrev pub apply_op : TableOp → PendingMap → Option PendingMap
apply_op (add tid) m = insert_new tid (m tid) m
apply_op (remove tid) m = some (update m tid none)

abbrev pub apply_ops : List TableOp → PendingMap → Option PendingMap
apply_ops [] m = some m
apply_ops (op ∷ ops) m = elim (apply_op op m) [ none ↦ none | some m' ↦ apply_ops ops m' ]

module _ ⦃x : Platform⦄ where
  abbrev pub run_op : TableOp → Exec Queue (Unit {0})
  run_op (add tid) = add_client_pending_request tid
  run_op (remove tid) = remove_client_pending_request tid

  abbrev pub run_ops : List TableOp → Exec Queue (Unit {0})
  run_ops [] = pure tt
  run_ops (op ∷ ops) = do run_op op; run_ops ops

  pub record Represents (q : Queue) (m : PendingMap) : Type 0 where
    pub table : IsTable q
    pub same : (tid : ℕ) → request_of tid q ≡ m tid

  -- That a result of the code is that of the map.
  abbrev pub Refines : Outcome (Unit {0} × Queue) → Option PendingMap → Type 0
  Refines r none = (r ≡ exited 255)
  Refines r (some m) = (q : Queue) × (r ≡ done (tt, q)) × Represents q m

  find-pending :
      (tid : ℕ) (q : Queue) (r : ClientRequest)
      → request_of tid q ≡ some r
      → (p : ℕ) × (x.tids.find (pos tid) q.internal_q ≡ some p)
  find-pending tid q r e = elim (Option-cases (x.tids.find (pos tid) q.internal_q)) [
    | inl missing ↦ ground (arith, missing, e)
    | inr found ↦ found
  ]

  find-absent :
      (tid : ℕ) (q : Queue)
      → IsTable q
      → request_of tid q ≡ none
      → x.tids.find (pos tid) q.internal_q ≡ none
  find-absent tid q v e = elim (Option-cases (x.tids.find (pos tid) q.internal_q)) [
    | inl missing ↦ missing
    | inr (p, found) ↦
        let (r, stored, _) = v.live (pos tid) p found in ground (arith, found, stored, e)
  ]

  request_of-absent :
      (tid : ℕ) (q : Queue) → x.tids.find (pos tid) q.internal_q ≡ none → request_of tid q ≡ none
  request_of-absent tid q missing = rw missing

  -- A map that differs at one id.
  same-update :
      (tid : ℕ) (q q' : Queue) (m : PendingMap) (o : Option ClientRequest)
      → ((j : ℕ) → request_of j q ≡ m j)
      → request_of tid q' ≡ o
      → ((j : ℕ) → tid ≢ j → request_of j q' ≡ request_of j q)
      → (j : ℕ) → request_of j q' ≡ update m tid o j
  same-update tid q q' m o same own others j = elim (Bool-cases (tid == j)) [
    | inl here ↦
        let e : tid ≡ j = ground (arith, here) in
        rw here (subst (λ (k : ℕ). request_of k q' ≡ o) e own)
    | inr there ↦
        let apart : tid ≢ j = λ e. ground (arith, there, e) in rw there (others j apart ∙ same j)
  ]

  run_op-Refines :
      (op : TableOp) (q : Queue) (m : PendingMap)
      → ((n : ℕ) → x.calloc n ≡ true)
      → Represents q m
      → Refines (run_op op q) (apply_op op m)
  run_op-Refines (add tid) q m ok v = elim (Option-cases (m tid)) [
    | inl new ↦
        let free = find-absent tid q v.table (v.same tid ∙ new) in
        let (q', run, own, others, w) =
          (add_client_pending_request_lem tid q v.table).1 free (ok q.calls) (ok (suc q.calls)) in
        rw new (
          q',
          run,
          record {
            table = w;
            same = same-update tid q q' m (some (new_request tid)) v.same own others;
          },
        )
    | inr (r, pending) ↦
        let (p, found) = find-pending tid q r (v.same tid ∙ pending) in
        rw pending ((add_client_pending_request_lem tid q v.table).0 p found)
  ]
  run_op-Refines (remove tid) q m ok v =
      let (q', run, gone, _, others, w) = remove_client_pending_request_lem tid q v.table in
      (
        q',
        run,
        record {
          table = w;
          same = same-update tid q q' m none v.same (request_of-absent tid q' gone) others;
        },
      )

  run_ops-cons :
      (op : TableOp) (ops : List TableOp) (q : Queue) (o : Option PendingMap)
      → Refines (run_op op q) o
      → ((q' : Queue) (m' : PendingMap)
          → Represents q' m'
          → Refines (run_ops ops q') (apply_ops ops m'))
      → Refines (run_ops (op ∷ ops) q) (elim o [ none ↦ none | some m' ↦ apply_ops ops m' ])
  run_ops-cons op ops q none ended next = rw ended
  run_ops-cons op ops q (some m) (q', run, w) next = rw run (next q' m w)

  -- Any sequence of additions and removals, from a well-formed table that represents a map from ids
  -- to requests and with all allocations successful, does to the table what the same sequence does
  -- to the map: it ends the process with the status -1 where an id is added that the map has, and
  -- else it returns, with a well-formed table that represents the resulting map.
  pub run_ops-Refines :
      (ops : List TableOp) (q : Queue) (m : PendingMap)
      → ((n : ℕ) → x.calloc n ≡ true)
      → Represents q m
      → Refines (run_ops ops q) (apply_ops ops m)
  run_ops-Refines [] q m ok v = (q, refl, v)
  run_ops-Refines (op ∷ ops) q m ok v =
      run_ops-cons op ops q (apply_op op m) (run_op-Refines op q m ok v)
        (λ q' m' w. run_ops-Refines ops q' m' ok w)
