-- ===== src/Server/Pool/First.antt =====
-- The first call of get_empty_buffer, which fills an array of empty slots.
use rdma_rendezvous_key_valu.Prelude.{
  ℕ, zero, suc, ◌+◌, ◌≤◌, ◌≡◌, refl, subst, Bool, true, Option, none, some, update, arith, lt→ltb,
}
use rdma_rendezvous_key_valu.Prelude.Exec.{Exec, done}
use rdma_rendezvous_key_valu.Server.Pool.{
  Pooled, no_pool, fill_slot, fill_slots, reserve_array, reallocate_entries, get_empty_buffer,
}
use rdma_rendezvous_key_valu.Server.Pool.Stock.{taken}

-- `Filled i e f`: with the rest of the state e, the slots of f below i are filled as they should be.
module _ {E : Type 0} (max : ℕ) (calloc_array : Exec E Bool) (new_entry : Exec E ℕ)
    (Filled : ℕ → E → (ℕ → Option ℕ) → Type 0)
    (makes : (i : ℕ) (e : E) (f : ℕ → Option ℕ)
      → Filled i e f
      → (p : ℕ) × (e' : E) × (new_entry e ≡ done (p, e'))
        × Filled (i + 1) e' (update f i (some p))) where
  fill_slots-Filled :
      (rounds i : ℕ) (s : Pooled E) (f : ℕ → Option ℕ)
      → s.pool.slots ≡ some f
      → ((j : ℕ) → i ≤ j → f j ≡ none)
      → Filled i s.rest f
      → (s' : Pooled E) × (f' : ℕ → Option ℕ) × (fill_slots max calloc_array new_entry rounds i s
          ≡ done (tt, s'))
        × (s'.pool.slots ≡ some f')
        × (s'.pool.current_num ≡ s.pool.current_num + rounds)
        × Filled (i + rounds) s'.rest f'
  unfolding fill_slots fill_slot
  fill_slots-Filled zero i s f slots empty ok =
      let i-zero : i ≡ i + 0 = omega arith in
      (s, f, refl, slots, omega arith, subst (λ n. Filled n s.rest f) i-zero ok)
  fill_slots-Filled (suc rounds) i s f slots empty ok =
      let (p, e', made, ok') = makes i s.rest f ok in
      let s1 : Pooled E = record {
        rest = e';
        pool = record s.pool {
          slots = some (update f i (some p));
          current_num = s.pool.current_num + 1;
        };
      } in
      let (s2, f2, run, slots2, counted, ok2) =
        fill_slots-Filled rounds (i + 1) s1 (update f i (some p)) refl
          (λ j h. ground (arith, empty j)) ok' in
      let i-suc : i + 1 + rounds ≡ i + suc rounds = omega arith in
      (
        s2,
        f2,
        rw (slots, empty i (omega arith), made) run,
        slots2,
        omega (arith, counted),
        subst (λ n. Filled n s2.rest f2) i-suc ok2,
      )

  -- The state after the array was filled and before its first pointer is taken.
  pub get_empty_buffer-Filled :
      (e0 e : E)
      → 10 ≤ max
      → calloc_array e0 ≡ done (true, e)
      → Filled 0 e (λ i. none)
      → (s : Pooled E) × (f : ℕ → Option ℕ) × (s.pool.current_num ≡ max)
        × (s.pool.free_buffer_idx ≡ 0)
        × Filled max s.rest f
        × ((p : ℕ)
            → f 0 ≡ some p
            → get_empty_buffer max calloc_array new_entry (record { rest = e0; pool = no_pool })
              ≡ done (some p, taken s f))
  unfolding get_empty_buffer reallocate_entries reserve_array
  get_empty_buffer-Filled e0 e big array ok =
      let s0 : Pooled E = record { rest = e; pool = record no_pool { slots = some (λ i. none) } } in
      let (s1, f1, run, slots, counted, ok1) =
        fill_slots-Filled max 0 s0 (λ i. none) refl (λ j h. refl) ok in
      let zero-max : 0 + max ≡ max = omega arith in
      (
        record s1 { pool = record s1.pool { free_buffer_idx = 0 } },
        f1,
        omega (arith, counted),
        refl,
        subst (λ n. Filled n s1.rest f1) zero-max ok1,
        λ p first. rw (array, run, slots, lt→ltb 0 max (omega arith), first),
      )
