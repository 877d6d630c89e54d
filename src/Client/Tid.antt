-- ===== src/Client/Tid.antt =====
-- struct tid_counter and get_new_tid of client.c: a transaction id is a union of a uint16_t and of
-- a bit field with the client's id in its 3 low bits and a counter in the 13 bits above.
pub mod Distinct
use rdma_rendezvous_key_valu.Prelude.{ℕ, ◌+◌, ◌*◌, ◌%◌}
use rdma_rendezvous_key_valu.Prelude.Exec.{Outcome, done, Exec}

-- last_used_tid.tid.meta
pub record TidCounter : Type 0 where
  pub client_id : ℕ
  pub last_used_tid : ℕ

-- The initial value of the static variable.
abbrev pub zero_tid : TidCounter
zero_tid = record { client_id = 0; last_used_tid = 0 }

-- tid.value
unfoldable pub tid_value : TidCounter → ℕ
tid_value t = t.client_id % 8 + 8 * (t.last_used_tid % 8192)

-- last_used_tid.tid.meta.client_id = client_id, in client_exch_dest
unfoldable pub set_client_id : ℕ → TidCounter → TidCounter
set_client_id id t = record t { client_id = id % 8 }

unfoldable pub get_new_tid : Exec TidCounter ℕ
unfolding tid_value
get_new_tid t =
    let next : TidCounter = record t { last_used_tid = (t.last_used_tid + 1) % 8192 } in
    done (tid_value next, next)
