-- ===== src/Server/State.antt =====
-- The state of server.c: the store, the context, the connections and the completions that the
-- adapter will report, one batch for each poll (`none` is a poll that fails).
use rdma_rendezvous_key_valu.Prelude.{ℕ, Bool, false, List, Option, none, ℤ, pos}
use rdma_rendezvous_key_valu.Prelude.Exec.{Exec, zoom}
use rdma_rendezvous_key_valu.Platform.{Platform}
use rdma_rendezvous_key_valu.Common.Message.{Message, ClientHeaders, ServerHeaders, WrIdInfo}
use rdma_rendezvous_key_valu.Common.Context.{KvContext}
use rdma_rendezvous_key_valu.Server.Store.{Store}

abbrev pub Ctx : Type 0
Ctx = KvContext ClientHeaders ServerHeaders

-- connection_t of common/constants.h
pub record Connection : Type 0 where
  pub qp : Option ℕ
  pub curr_recv_buff : ℤ
  pub max_recv_buff : ℤ
  pub buff_in_use : ℕ → Bool

abbrev pub no_connection : Connection
no_connection = record {
  qp = none;
  curr_recv_buff = pos 0;
  max_recv_buff = pos 0;
  buff_in_use = λ i. false;
}

-- struct ibv_wc, as far as the program reads it, and for a receive the message that the adapter
-- has put into the buffer
pub record Wc : Type 0 where
  pub wr_id : WrIdInfo
  pub success : Bool
  pub qp_num : ℕ
  pub message : Message ClientHeaders

-- `calls` counts the calls of the verbs.
pub record ServerState (S : Type 0) : Type 0 where
  pub store : S
  pub ctx : Ctx
  pub connections : ℕ → Connection
  pub current_number_conns : ℤ
  pub last_client_id : ℤ
  pub last_qp_state_check : ℕ
  pub completions : List (Option (List Wc))
  pub calls : ℕ

module _ ⦃x : Platform⦄ where
  abbrev pub Server : Type 0
  Server = ServerState Store

  abbrev pub in_store : {A : Type 0} → Exec Store A → Exec Server A
  in_store = zoom (λ s. s.store) (λ s t. record s { store = t })

  abbrev pub in_ctx : {A : Type 0} → Exec Ctx A → Exec Server A
  in_ctx = zoom (λ s. s.ctx) (λ s c. record s { ctx = c })
