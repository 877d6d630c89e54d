-- ===== src/Server/Pool.antt =====
-- The preallocated entries of server_internals/db.c and server_internals/
-- server_requests_management.c: both files hold one copy of this code, with arrays of 1000 and of
-- 100000 pointers. `E` is the rest of the file's state, `new_entry` the body of the loop that makes
-- an entry, `calloc_array` whether the array itself can be allocated.
pub mod Refill
pub mod Stock
pub mod First
use rdma_rendezvous_key_valu.Prelude.{
  ℕ, zero, suc, ◌+◌, ◌-◌, Bool, true, false, Option, none, some, ltb, if◌then◌else◌, update,
}
use rdma_rendezvous_key_valu.Prelude.Exec.{
  Outcome, done, exited, fault, Exec, pure, exit, gets, modify, deref, assert, zoom, ◌>>=◌, ◌>>◌,
}

-- preallocated_entries (`none` is NULL), current_num_allocated_entries and free_buffer_idx
pub record Pool : Type 0 where
  pub slots : Option (ℕ → Option ℕ)
  pub current_num : ℕ
  pub free_buffer_idx : ℕ

pub record Pooled (E : Type 0) : Type 0 where
  pub rest : E
  pub pool : Pool

-- The statics before the first call.
abbrev pub no_pool : Pool
no_pool = record { slots = none; current_num = 0; free_buffer_idx = 0 }

abbrev pub in_rest : {E A : Type 0} → Exec E A → Exec (Pooled E) A
in_rest = zoom (λ s. s.rest) (λ s e. record s { rest = e })

module _ {E : Type 0} (max_entries : ℕ) (calloc_array : Exec E Bool) (new_entry : Exec E ℕ) where
  abbrev set_slots : (ℕ → Option ℕ) → Exec (Pooled E) (Unit {0})
  set_slots f = modify λ s. record s { pool = record s.pool { slots = some f } }

  -- One round of the loop, at the index i.
  fill_slot : ℕ → Exec (Pooled E) (Unit {0})
  fill_slot i = do
    slots ← gets λ s. s.pool.slots
    f ← deref slots
    elim (f i) [
      | some curr_entry ↦ pure tt
      | none ↦ do
        curr_entry ← in_rest new_entry
        modify λ s. record s {
          pool = record s.pool {
            slots = some (update f i (some curr_entry));
            current_num = s.pool.current_num + 1;
          };
        }
    ]

  -- `rounds` rounds of the loop, from the index i.
  fill_slots : ℕ → ℕ → Exec (Pooled E) (Unit {0})
  fill_slots zero i = pure tt
  fill_slots (suc rounds) i = do fill_slot i; fill_slots rounds (i + 1)

  reserve_array : Exec (Pooled E) (Unit {0})
  reserve_array = do
    slots ← gets λ s. s.pool.slots
    elim slots [
      | some f ↦ pure tt
      | none ↦ do ok ← in_rest calloc_array; if ok then set_slots (λ i. none) else exit 1
    ]

  pub reallocate_entries : Exec (Pooled E) (Unit {0})
  reallocate_entries = do
    reserve_array
    fill_slots max_entries 0
    modify λ s. record s { pool = record s.pool { free_buffer_idx = 0 } }

  -- Takes the pointer at free_buffer_idx, which may be NULL, out of the array; past its end the
  -- read is undefined.
  take_slot : Exec (Pooled E) (Option ℕ)
  take_slot = do
    pool ← gets λ s. s.pool
    f ← deref pool.slots
    assert (ltb pool.free_buffer_idx max_entries)
    modify λ s. record s {
      pool = record {
        slots = some (update f pool.free_buffer_idx none);
        current_num = pool.current_num - 1;
        free_buffer_idx = pool.free_buffer_idx + 1;
      };
    }
    pure (f pool.free_buffer_idx)

  unfoldable pub get_empty_buffer : Exec (Pooled E) (Option ℕ)
  unfolding take_slot
  get_empty_buffer = do
    few ← gets λ s. ltb s.pool.current_num 10
    if few then reallocate_entries else pure tt
    take_slot
