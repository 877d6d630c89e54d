-- ===== src/Client/Requests.antt =====
-- client_internals/client_requests_management.h and .c. An allocation is named by the number of the
-- call that made it.
pub mod Table
pub mod Refine
use rdma_rendezvous_key_valu.Prelude.{
  ℕ, suc, ◌+◌, Bool, true, false, List, [], ◌∷◌, Option, none, some, if◌then◌else◌, update, ℤ, pos,
  negsuc,
}
use rdma_rendezvous_key_valu.Prelude.Exec.{
  Outcome, done, exited, fault, Exec, pure, exit, gets, modify, deref, ◌>>=◌, ◌>>◌,
}
use rdma_rendezvous_key_valu.Platform.{Platform}
use rdma_rendezvous_key_valu.Common.Constants.{Opcode, zero_opcode}
use rdma_rendezvous_key_valu.Server.Db.{Buffer, Mr}
use rdma_rendezvous_key_valu.Server.Requests.{to_u16}

-- client_pending_request_t; `out_buf` is the caller's string
pub record ClientRequest : Type 0 where
  pub tid : ℤ
  pub is_pending : Bool
  pub opcode : Opcode
  pub out_size : ℕ
  pub out_buf : Option (List ℕ)
  pub in_buf : Option Buffer
  pub mr : Option Mr
  pub key : Option (List ℕ)

-- internal_q, the heap of requests, and the number of calls so far
pub record ClientQueue (Table : Type 0) : Type 0 where
  pub internal_q : Table
  pub requests : ℕ → Option ClientRequest
  pub calls : ℕ

-- What calloc leaves.
abbrev pub blank_request : ClientRequest
blank_request = record {
  tid = pos 0;
  is_pending = false;
  opcode = zero_opcode;
  out_size = 0;
  out_buf = none;
  in_buf = none;
  mr = none;
  key = none;
}

module _ ⦃x : Platform⦄ where
  abbrev pub Queue : Type 0
  Queue = ClientQueue x.tids.Table

  -- The static variables before client_pending_requests_init.
  abbrev pub no_queue : Queue
  no_queue = record { internal_q = x.tids.empty; requests = λ p. none; calls = 0 }

  unfoldable pub load : ℕ → Exec Queue ClientRequest
  load p s = deref (s.requests p) s

  unfoldable pub store : ℕ → ClientRequest → Exec Queue (Unit {0})
  store p r = modify λ s. record s { requests = update s.requests p (some r) }

  unfoldable pub calloc : Exec Queue (Option ℕ)
  calloc s =
      done (if x.calloc s.calls then some (suc s.calls) else none, record s { calls = suc s.calls })

  -- The bogus request has the transaction id -1.
  unfoldable pub client_pending_requests_init : Exec Queue (Unit {0})
  unfolding calloc store
  client_pending_requests_init = do
    modify λ s. record s { internal_q = x.tids.empty }
    s ← calloc
    elim s [
      | none ↦ exit 255
      | some p ↦ do
        store p (record blank_request { tid = negsuc 0 })
        modify λ s. record s { internal_q = x.tids.add (negsuc 0) p s.internal_q }
    ]

  unfoldable pub get_client_pending_request : ℕ → Exec Queue (Option ℕ)
  get_client_pending_request tid = gets λ s. x.tids.find (pos tid) s.internal_q

  -- The calloc of the struct is not tested: a null pointer is dereferenced.
  unfoldable pub add_client_pending_request : ℕ → Exec Queue (Unit {0})
  unfolding calloc store
  add_client_pending_request transaction_id = do
    found ← gets λ s. x.tids.find (pos transaction_id) s.internal_q
    elim found [
      | some p ↦ exit 255
      | none ↦ do
        s ← calloc
        p ← deref s
        key ← calloc
        store p (record blank_request {
          tid = pos transaction_id;
          key = elim key [ none ↦ none | some a ↦ some [] ];
        })
        modify λ s. record s { internal_q = x.tids.add (pos transaction_id) p s.internal_q }
    ]

  unfoldable pub remove_client_pending_request : ℕ → Exec Queue (Unit {0})
  unfolding load
  remove_client_pending_request tid = do
    found ← gets λ s. x.tids.find (pos tid) s.internal_q
    elim found [
      | none ↦ pure tt
      | some p ↦ do
        s ← load p
        modify λ q. record q {
          internal_q = x.tids.del (pos tid) q.internal_q;
          requests = update q.requests p none;
        }
    ]

  unfoldable pub num_pending_requests : Queue → ℕ
  num_pending_requests s = x.tids.count s.internal_q

  -- HASH_ITER, with s->tid read as a uint16_t
  unfoldable pub remove_each : List ℕ → Exec Queue (Unit {0})
  unfolding load
  remove_each [] = pure tt
  remove_each (p ∷ ps) = do s ← load p; remove_client_pending_request (to_u16 s.tid); remove_each ps

  unfoldable pub destroy_pending_request_queue : Exec Queue (Unit {0})
  unfolding remove_each
  destroy_pending_request_queue = do
    elements ← gets λ s. x.tids.iter s.internal_q
    remove_each elements
