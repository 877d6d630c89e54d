-- ===== src/Server/Pool/Stock.antt =====
-- get_empty_buffer while there are enough preallocated entries that none is allocated.
use rdma_rendezvous_key_valu.Prelude.{
  ℕ, ◌+◌, ◌-◌, ◌≤◌, ◌<◌, ◌≡◌, Bool, Option, none, some, update, lt→ltb, le→not-ltb,
}
use rdma_rendezvous_key_valu.Prelude.Exec.{Exec, done}
use rdma_rendezvous_key_valu.Server.Pool.{Pool, Pooled, get_empty_buffer}

-- The next pointer of the array f is q, and there are at least ten.
pub record HasNext (max : ℕ) (pool : Pool) (f : ℕ → Option ℕ) (q : ℕ) : Type 0 where
  pub slots : pool.slots ≡ some f
  pub enough : 10 ≤ pool.current_num
  pub inside : pool.free_buffer_idx < max
  pub next : f pool.free_buffer_idx ≡ some q

module _ {E : Type 0} where
  abbrev pub taken : Pooled E → (ℕ → Option ℕ) → Pooled E
  taken s f = record s {
    pool = record {
      slots = some (update f s.pool.free_buffer_idx none);
      current_num = s.pool.current_num - 1;
      free_buffer_idx = s.pool.free_buffer_idx + 1;
    };
  }

  pub get_empty_buffer-HasNext :
      (max : ℕ) (calloc_array : Exec E Bool) (new_entry : Exec E ℕ) (s : Pooled E)
      (f : ℕ → Option ℕ) (q : ℕ)
      → HasNext max s.pool f q
      → get_empty_buffer max calloc_array new_entry s ≡ done (some q, taken s f)
  unfolding get_empty_buffer
  get_empty_buffer-HasNext max calloc_array new_entry s f q h = rw (
    le→not-ltb s.pool.current_num 10 h.enough,
    h.slots,
    lt→ltb s.pool.free_buffer_idx max h.inside,
    h.next,
  )
