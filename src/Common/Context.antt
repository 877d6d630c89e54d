-- ===== src/Common/Context.antt =====
-- struct kv_context of common/constants.h, over the headers of what it receives and sends. The
-- verbs handles are not modelled; what is posted to the adapter is kept in `posted`, newest first.
use rdma_rendezvous_key_valu.Prelude.{ℕ, Bool, List, ℤ}
use rdma_rendezvous_key_valu.Common.Message.{Message, WrIdInfo}

-- A work request that the adapter accepted, with the queue pair it went to.
pub data Posted (Out : Type 0) : Type 0 where
  recv_wr : (qp_num : ℕ) → WrIdInfo → Posted Out
  send_wr : (qp_num size : ℕ) → WrIdInfo → Message Out → Posted Out
  rdma_wr : (qp_num size laddr raddr rkey : ℕ) → WrIdInfo → Posted Out

pub record KvContext (In Out : Type 0) : Type 0 where
  pub in_buf : ℕ → Message In
  pub out_buf : ℕ → Message Out
  pub max_recv_buff : ℤ
  pub curr_recv_buff : ℤ
  pub last_used_recv_buff : ℕ
  pub last_used_send_buff : ℕ
  pub in_use_recv : ℕ → Bool
  pub in_use_send : ℕ → Bool
  pub posted : List (Posted Out)
