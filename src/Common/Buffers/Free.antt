-- ===== src/Common/Buffers/Free.antt =====
-- get_free_send_idx and get_free_recv_idx of common/buffers_management.c.
use rdma_rendezvous_key_valu.Prelude.{ℕ, ◌<◌, ◌≡◌, ◌≢◌, true, false, Option, none, some, arith}
use rdma_rendezvous_key_valu.Prelude.Exec.{Outcome, done}
use rdma_rendezvous_key_valu.Common.Constants.{server_num_recv_buffs, server_num_send_buffs}
use rdma_rendezvous_key_valu.Common.Context.{KvContext}
use rdma_rendezvous_key_valu.Common.Buffers.{
  scan, found_recv, found_send, get_free_recv_idx, get_free_send_idx, acquire_send_buffer,
}
use rdma_rendezvous_key_valu.Common.Buffers.Scan.{FindsFree, scan-FindsFree}

module _ {In Out : Type 0} where
  -- A search among the send buffers has found the free buffer i, from which the next search will
  -- start, or all buffers are in use and nothing has changed.
  pub data SendFound (ctx : KvContext In Out) : Outcome (Option ℕ × KvContext In Out) → Type 0 where
    free :
        (i : ℕ)
        → i < server_num_send_buffs
        → ctx.in_use_send i ≡ false
        → SendFound ctx (done (some i, record ctx { last_used_send_buff = i }))
    full :
        ((i : ℕ) → i < server_num_send_buffs → ctx.in_use_send i ≡ true)
        → SendFound ctx (done (none, ctx))

  pub data RecvFound (ctx : KvContext In Out) : Outcome (Option ℕ × KvContext In Out) → Type 0 where
    free :
        (i : ℕ)
        → i < server_num_recv_buffs
        → ctx.in_use_recv i ≡ false
        → RecvFound ctx (done (some i, record ctx { last_used_recv_buff = i }))
    full :
        ((i : ℕ) → i < server_num_recv_buffs → ctx.in_use_recv i ≡ true)
        → RecvFound ctx (done (none, ctx))

  SendFound-found :
      (ctx : KvContext In Out) (r : Option (Option ℕ))
      → FindsFree ctx.in_use_send server_num_send_buffs r
      → SendFound ctx (found_send r ctx)
  SendFound-found ctx none h = absurd h
  SendFound-found ctx (some none) h = full h
  SendFound-found ctx (some (some i)) h = free i h.0 h.1

  RecvFound-found :
      (ctx : KvContext In Out) (r : Option (Option ℕ))
      → FindsFree ctx.in_use_recv server_num_recv_buffs r
      → RecvFound ctx (found_recv r ctx)
  RecvFound-found ctx none h = absurd h
  RecvFound-found ctx (some none) h = full h
  RecvFound-found ctx (some (some i)) h = free i h.0 h.1

  -- From a last used index within the array, the search for a send buffer ends. It returns the
  -- index of a free buffer and remembers it, or it returns -1, changes nothing, and every buffer is
  -- in use.
  pub get_free_send_idx-SendFound :
      (ctx : KvContext In Out)
      → ctx.last_used_send_buff < server_num_send_buffs
      → SendFound ctx (get_free_send_idx ctx)
  unfolding get_free_send_idx
  get_free_send_idx-SendFound ctx h =
      SendFound-found ctx
        (scan server_num_send_buffs ctx.in_use_send server_num_send_buffs ctx.last_used_send_buff
          ctx.last_used_send_buff)
        (scan-FindsFree ctx.in_use_send server_num_send_buffs ctx.last_used_send_buff h)

  -- From a last used index within the array, the search for a receive buffer ends. It returns the
  -- index of a free buffer and remembers it, or it returns -1, changes nothing, and every buffer is
  -- in use.
  pub get_free_recv_idx-RecvFound :
      (ctx : KvContext In Out)
      → ctx.last_used_recv_buff < server_num_recv_buffs
      → RecvFound ctx (get_free_recv_idx ctx)
  unfolding get_free_recv_idx
  get_free_recv_idx-RecvFound ctx h =
      RecvFound-found ctx
        (scan server_num_recv_buffs ctx.in_use_recv server_num_recv_buffs ctx.last_used_recv_buff
          ctx.last_used_recv_buff)
        (scan-FindsFree ctx.in_use_recv server_num_recv_buffs ctx.last_used_recv_buff h)

  SendFound-some :
      (c : KvContext In Out) {r : Outcome (Option ℕ × KvContext In Out)} (i : ℕ)
      (d : KvContext In Out)
      → SendFound c r
      → r ≡ done (some i, d)
      → (i < server_num_send_buffs)
        × (c.in_use_send i ≡ false)
        × (d ≡ record c { last_used_send_buff = i })
  SendFound-some c i d (free j hj unused) e = ground arith
  SendFound-some c i d (full all) e = cc

  -- A send buffer that a search has returned and that was then acquired is not returned by a later
  -- search, as long as no buffer that was in use has been released in between, and both searches
  -- start within the array. The search returned a buffer that was free.
  pub acquired_once :
      (c c' a d d' : KvContext In Out) (i j : ℕ)
      → c.last_used_send_buff < server_num_send_buffs
      → d.last_used_send_buff < server_num_send_buffs
      → get_free_send_idx c ≡ done (some i, c')
      → acquire_send_buffer i c' ≡ done (tt, a)
      → ((k : ℕ) → a.in_use_send k ≡ true → d.in_use_send k ≡ true)
      → get_free_send_idx d ≡ done (some j, d')
      → (c.in_use_send i ≡ false) × (i ≢ j)
  unfolding acquire_send_buffer
  acquired_once c c' a d d' i j hc hd first taken keeps second =
      let found = SendFound-some c i c' (get_free_send_idx-SendFound c hc) first in
      let later = SendFound-some d j d' (get_free_send_idx-SendFound d hd) second in
      (found.1, λ e. ground (arith, keeps i, taken, later.1, e))
