-- ===== src/Common/Buffers.antt =====
-- common/buffers_management.c. A result of -1 is `none`. The scan of the `while` loop takes fuel:
-- the outer `none` of `scan` says that it ran out; the searches start with as much as there are buffers.
pub mod Scan
pub mod Free
use rdma_rendezvous_key_valu.Prelude.{
  ℕ, zero, suc, ◌+◌, ◌%◌, ◌==◌, Bool, true, false, Option, none, some, if◌then◌else◌, update,
}
use rdma_rendezvous_key_valu.Prelude.Exec.{
  Outcome, done, fault, Exec, pure, modify, gets, ◌>>=◌, ◌>>◌,
}
use rdma_rendezvous_key_valu.Common.Constants.{server_num_recv_buffs, server_num_send_buffs}
use rdma_rendezvous_key_valu.Common.Message.{Message, Blank, blank_message}
use rdma_rendezvous_key_valu.Common.Context.{KvContext}

-- The loop of get_free_recv_idx and get_free_send_idx, over an array of n flags.
unfoldable pub scan : ℕ → (ℕ → Bool) → ℕ → ℕ → ℕ → Option (Option ℕ)
scan zero in_use n last curr_idx = none
scan (suc fuel) in_use n last curr_idx =
    let next_idx = (curr_idx + 1) % n in
    let rest = scan fuel in_use n last next_idx in
    if in_use curr_idx then (if next_idx == last then some none else rest) else some (some curr_idx)

module _ {In Out : Type 0} where
  unfoldable pub get_send_buffer : ℕ → Exec (KvContext In Out) (Message Out)
  get_send_buffer buff_id = gets λ ctx. ctx.out_buf buff_id

  unfoldable pub get_recv_buffer : ℕ → Exec (KvContext In Out) (Message In)
  get_recv_buffer buff_id = gets λ ctx. ctx.in_buf buff_id

  unfoldable pub release_send_buffer : ℕ → Exec (KvContext In Out) (Unit {0})
  release_send_buffer buff_id =
      modify λ ctx. record ctx { in_use_send = update ctx.in_use_send buff_id false }

  unfoldable pub acquire_send_buffer : ℕ → Exec (KvContext In Out) (Unit {0})
  acquire_send_buffer buff_id =
      modify λ ctx. record ctx { in_use_send = update ctx.in_use_send buff_id true }

  unfoldable pub release_receive_buffer : ℕ → Exec (KvContext In Out) (Unit {0})
  release_receive_buffer buff_id =
      modify λ ctx. record ctx { in_use_recv = update ctx.in_use_recv buff_id false }

  unfoldable pub acquire_receive_buffer : ℕ → Exec (KvContext In Out) (Unit {0})
  acquire_receive_buffer buff_id =
      modify λ ctx. record ctx { in_use_recv = update ctx.in_use_recv buff_id true }

  abbrev found_recv : Option (Option ℕ) → Exec (KvContext In Out) (Option ℕ)
  found_recv none ctx = fault
  found_recv (some none) ctx = done (none, ctx)
  found_recv (some (some i)) ctx = done (some i, record ctx { last_used_recv_buff = i })

  unfoldable pub get_free_recv_idx : Exec (KvContext In Out) (Option ℕ)
  get_free_recv_idx ctx =
      found_recv
        (scan server_num_recv_buffs ctx.in_use_recv server_num_recv_buffs ctx.last_used_recv_buff
          ctx.last_used_recv_buff)
        ctx

  abbrev found_send : Option (Option ℕ) → Exec (KvContext In Out) (Option ℕ)
  found_send none ctx = fault
  found_send (some none) ctx = done (none, ctx)
  found_send (some (some i)) ctx = done (some i, record ctx { last_used_send_buff = i })

  unfoldable pub get_free_send_idx : Exec (KvContext In Out) (Option ℕ)
  get_free_send_idx ctx =
      found_send
        (scan server_num_send_buffs ctx.in_use_send server_num_send_buffs ctx.last_used_send_buff
          ctx.last_used_send_buff)
        ctx

module _ {In Out : Type 0} ⦃z : Blank Out⦄ where
  -- memset(buff, 0, BUFFER_SIZE), and the release
  unfoldable pub free_send_buffer : ℕ → Exec (KvContext In Out) (Unit {0})
  unfolding release_send_buffer
  free_send_buffer buff_id = do
    modify λ ctx. record ctx { out_buf = update ctx.out_buf buff_id blank_message }
    release_send_buffer buff_id
