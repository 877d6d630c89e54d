-- ===== src/Server/Store.antt =====
-- The state of server_internals/: the database, and the tables of pending requests of
-- server_requests_management.h and .c. A queue pair is named by its number, and an allocation by
-- the call that made it.
use rdma_rendezvous_key_valu.Prelude.{ℕ, Bool, Option, none, Bytes, ℤ}
use rdma_rendezvous_key_valu.Prelude.Exec.{Exec, zoom}
use rdma_rendezvous_key_valu.Platform.{Platform}
use rdma_rendezvous_key_valu.Common.Message.{ClientHeaders, WrIdInfo}
use rdma_rendezvous_key_valu.Server.Pool.{Pooled, no_pool, in_rest}
use rdma_rendezvous_key_valu.Server.Db.{Db, DbRest}

-- server_pending_request_t; `entry` points to a db_entry_t, and a null pointer is `none`
pub record Request : Type 0 where
  pub tid : ℤ
  pub info : WrIdInfo
  pub is_pending : Bool
  pub entry : Option ℕ
  pub headers : ClientHeaders
  pub buffer : Option Bytes
  pub qp : Option ℕ
  pub qp_num : ℕ

-- internal_q, waiting_fin_q, sorted_q, the heap of requests, and the number of calls so far
pub record RequestState (Table Chain : Type 0) : Type 0 where
  pub internal_q : Table
  pub waiting_fin_q : Table
  pub sorted_q : Chain
  pub requests : ℕ → Option Request
  pub calls : ℕ

module _ ⦃x : Platform⦄ where
  abbrev pub ReqRest : Type 0
  ReqRest = RequestState x.tids.Table x.chains.Chain

  abbrev pub Reqs : Type 0
  Reqs = Pooled ReqRest

  -- The static variables before server_pending_requests_init.
  abbrev pub no_reqs : Reqs
  no_reqs = record {
    rest = record {
      internal_q = x.tids.empty;
      waiting_fin_q = x.tids.empty;
      sorted_q = x.chains.empty;
      requests = λ p. none;
      calls = 0;
    };
    pool = no_pool;
  }

pub record StoreOf (Db Reqs : Type 0) : Type 0 where
  pub db : Db
  pub reqs : Reqs

module _ ⦃x : Platform⦄ where
  abbrev pub Store : Type 0
  Store = StoreOf Db Reqs

  abbrev pub in_db : {A : Type 0} → Exec Db A → Exec Store A
  in_db = zoom (λ s. s.db) (λ s d. record s { db = d })

  abbrev pub in_reqs : {A : Type 0} → Exec Reqs A → Exec Store A
  in_reqs = zoom (λ s. s.reqs) (λ s r. record s { reqs = r })

  abbrev pub in_entries : {A : Type 0} → Exec DbRest A → Exec Store A
  in_entries m = in_db (in_rest m)

  abbrev pub in_queues : {A : Type 0} → Exec ReqRest A → Exec Store A
  in_queues m = in_reqs (in_rest m)
