-- ===== src/Client/State.antt =====
-- The state of client.c: the context, the transaction ids, the pending requests, and the
-- completions that the adapter will report, one batch for each poll (`none` is a poll that fails).
use rdma_rendezvous_key_valu.Prelude.{ℕ, Bool, List, Option, Bytes}
use rdma_rendezvous_key_valu.Prelude.Exec.{Exec, zoom}
use rdma_rendezvous_key_valu.Platform.{Platform}
use rdma_rendezvous_key_valu.Common.Message.{Message, ClientHeaders, ServerHeaders, WrIdInfo}
use rdma_rendezvous_key_valu.Common.Context.{KvContext}
use rdma_rendezvous_key_valu.Client.Tid.{TidCounter}
use rdma_rendezvous_key_valu.Client.Requests.{Queue}

abbrev pub Ctx : Type 0
Ctx = KvContext ServerHeaders ClientHeaders

-- struct ibv_wc, as far as the program reads it; for a receive with the message that the adapter has
-- put into the buffer, for an RDMA read with the bytes that it has put at the local address
pub record Wc : Type 0 where
  pub wr_id : WrIdInfo
  pub success : Bool
  pub message : Message ServerHeaders
  pub read_data : Bytes

-- `qp_num` is that of ctx->qp; `calls` counts the calls of the verbs.
pub record ClientState (Q : Type 0) : Type 0 where
  pub ctx : Ctx
  pub queue : Q
  pub last_used_tid : TidCounter
  pub immediate_shutdown : Bool
  pub completions : List (Option (List Wc))
  pub qp_num : ℕ
  pub calls : ℕ

module _ ⦃x : Platform⦄ where
  abbrev pub Client : Type 0
  Client = ClientState Queue

  abbrev pub in_ctx : {A : Type 0} → Exec Ctx A → Exec Client A
  in_ctx = zoom (λ s. s.ctx) (λ s c. record s { ctx = c })

  abbrev pub in_queue : {A : Type 0} → Exec Queue A → Exec Client A
  in_queue = zoom (λ s. s.queue) (λ s q. record s { queue = q })

  abbrev pub in_tid : {A : Type 0} → Exec TidCounter A → Exec Client A
  in_tid = zoom (λ s. s.last_used_tid) (λ s t. record s { last_used_tid = t })
