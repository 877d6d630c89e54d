-- ===== src/Server/Pool/Refill.antt =====
-- The bookkeeping of the preallocated entries of server_internals/ over refills.
use rdma_rendezvous_key_valu.Prelude.{
  ℕ, zero, suc, ◌+◌, ◌-◌, ◌≤◌, ◌<◌, ◌≡◌, ◌≢◌, refl, subst, inl, inr, Bool, true, Option, none, some,
  ltb, update, arith, Option-cases, Bool-cases,
}
use rdma_rendezvous_key_valu.Prelude.Exec.{done, Exec}
use native.Mathlib.Decide.{dec_lt}
use rdma_rendezvous_key_valu.Server.Pool.{
  Pool, Pooled, fill_slot, fill_slots, reserve_array, reallocate_entries, take_slot,
  get_empty_buffer,
}

abbrev pub IsFull : Option ℕ → Type 0
IsFull o = o ≢ none

-- In the middle of a refill: the slots below i are full, and so are those from free_buffer_idx on;
-- the others are empty, and current_num_allocated_entries counts the full ones.
pub record IsFilling (max i idx current : ℕ) (f : ℕ → Option ℕ) : Type 0 where
  pub below : (j : ℕ) → j < i → IsFull (f j)
  pub above : (j : ℕ) → idx ≤ j → j < max → IsFull (f j)
  pub empty : (j : ℕ) → i ≤ j → j < idx → f j ≡ none
  pub counted : current + (idx - i) ≡ max

-- Between two calls: there is no array yet, or the slots below free_buffer_idx are empty and the
-- others full, and current_num_allocated_entries counts the full ones.
abbrev pub Slots : ℕ → Pool → Option (ℕ → Option ℕ) → Type 0
Slots max pool none = (pool.current_num ≡ 0) × (pool.free_buffer_idx ≡ 0)
Slots max pool (some f) =
    (pool.free_buffer_idx ≤ max) × IsFilling max 0 pool.free_buffer_idx pool.current_num f

pub record IsPool (max : ℕ) (pool : Pool) : Type 0 where
  pub slots_ok : Slots max pool pool.slots

module _ {max i idx current : ℕ} {f : ℕ → Option ℕ} (v : IsFilling max i idx current f) where
  full_slot : (p : ℕ) → f i ≡ some p → idx ≤ i
  full_slot p full = elim (dec_lt i idx) [
    | yes before ↦ cc (v.empty i (omega arith) before, full)
    | no past ↦ omega arith
  ]

  empty_slot : i < max → f i ≡ none → i < idx
  empty_slot hi missing = elim (dec_lt i idx) [
    | yes before ↦ before
    | no past ↦ absurd (v.above i (omega arith) hi missing)
  ]

fresh_counter : {max : ℕ} (pool : Pool) → pool.slots ≡ none → IsPool max pool → pool.current_num ≡ 0
fresh_counter {max} pool e v = (subst (Slots max pool) e v.slots_ok).0

filling :
    {max : ℕ} (pool : Pool) (f : ℕ → Option ℕ)
    → pool.slots ≡ some f
    → IsPool max pool
    → (pool.free_buffer_idx ≤ max) × IsFilling max 0 pool.free_buffer_idx pool.current_num f
filling {max} pool f e v = subst (Slots max pool) e v.slots_ok

-- A new array, all of whose slots are empty.
IsFilling-fresh : {max current : ℕ} → current ≡ 0 → IsFilling max 0 max current (λ i. none)
IsFilling-fresh e = record {
  below = λ j h. absurd (omega arith);
  above = λ j a b. absurd (omega arith);
  empty = λ j a b. refl;
  counted = omega (arith, e);
}

-- A refilled array.
IsFilling-full :
    {max idx current : ℕ} {f : ℕ → Option ℕ}
    → idx ≤ max
    → idx ≡ 0
    → current ≡ max
    → ((j : ℕ) → j < max → IsFull (f j))
    → IsFilling max 0 idx current f
IsFilling-full h e full all = record {
  below = λ j a. absurd (omega arith);
  above = λ j a b. all j b;
  empty = λ j a b. absurd (omega arith);
  counted = omega arith;
}

-- Taking the first full slot out keeps the bookkeeping.
IsPool-taken :
    {max : ℕ} (pool : Pool) (f : ℕ → Option ℕ)
    → pool.free_buffer_idx < max
    → IsFilling max 0 pool.free_buffer_idx pool.current_num f
    → IsPool max (record {
      slots = some (update f pool.free_buffer_idx none);
      current_num = pool.current_num - 1;
      free_buffer_idx = pool.free_buffer_idx + 1;
    })
IsPool-taken pool f h v = record {
  slots_ok = (
    omega arith,
    record {
      below = λ j a. absurd (omega arith);
      above = λ j a b. ground (arith, v.above j);
      empty = λ j a b. ground (arith, v.empty j);
      counted = omega (arith, v.counted);
    },
  );
}

module _ {E : Type 0} (max : ℕ) (calloc_array : Exec E Bool) (new_entry : Exec E ℕ)
    (has_array : (e : E) → (e' : E) × (calloc_array e ≡ done (true, e')))
    (makes : (e : E) → (p : ℕ) × (e' : E) × (new_entry e ≡ done (p, e'))) where
  -- One round fills the slot i.
  fill_slot_lem :
      (i idx : ℕ) (s : Pooled E) (f : ℕ → Option ℕ)
      → i < max
      → s.pool.slots ≡ some f
      → IsFilling max i idx s.pool.current_num f
      → (s' : Pooled E) × (f' : ℕ → Option ℕ) × (fill_slot max calloc_array new_entry i s
          ≡ done (tt, s'))
        × (s'.pool.slots ≡ some f')
        × IsFilling max (i + 1) idx s'.pool.current_num f'
  unfolding fill_slot
  fill_slot_lem i idx s f hi e v = elim (Option-cases (f i)) [
    | inr (p, full) ↦ (
      s,
      f,
      rw (e, full),
      e,
      record {
        below = λ j h. ground (arith, v.below j, full);
        above = v.above;
        empty = λ j h. v.empty j (omega arith);
        counted = omega (arith, v.counted, full_slot v p full);
      },
    )
    | inl missing ↦
        let (p, e', made) = makes s.rest in
        (
          record {
            rest = e';
            pool = record s.pool {
              slots = some (update f i (some p));
              current_num = s.pool.current_num + 1;
            };
          },
          update f i (some p),
          rw (e, missing, made),
          refl,
          record {
            below = λ j h. ground (arith, v.below j);
            above = λ j a b. ground (arith, v.above j);
            empty = λ j a b. ground (arith, v.empty j);
            counted = omega (arith, v.counted, empty_slot v hi missing);
          },
        )
  ]

  -- The rest of the loop fills the rest of the array.
  fill_slots_lem :
      (rounds i idx : ℕ) (s : Pooled E) (f : ℕ → Option ℕ)
      → i + rounds ≡ max
      → idx ≤ max
      → s.pool.slots ≡ some f
      → IsFilling max i idx s.pool.current_num f
      → (s' : Pooled E) × (f' : ℕ → Option ℕ) × (fill_slots max calloc_array new_entry rounds i s
          ≡ done (tt, s'))
        × (s'.pool.slots ≡ some f')
        × (s'.pool.current_num ≡ max)
        × ((j : ℕ) → j < max → IsFull (f' j))
  unfolding fill_slots
  fill_slots_lem zero i idx s f hi hidx e v =
      (s, f, refl, e, omega (arith, v.counted), λ j h. v.below j (omega arith))
  fill_slots_lem (suc rounds) i idx s f hi hidx e v =
      let (s1, f1, run, e1, v1) = fill_slot_lem i idx s f (omega arith) e v in
      let (s2, f2, run2, e2, full, all) =
        fill_slots_lem rounds (i + 1) idx s1 f1 (omega arith) hidx e1 v1 in
      (s2, f2, rw run run2, e2, full, all)

  reserve_set :
      (s : Pooled E) (f : ℕ → Option ℕ)
      → s.pool.slots ≡ some f
      → reserve_array max calloc_array new_entry s ≡ done (tt, s)
  unfolding reserve_array
  reserve_set s f e = ground (arith, e)

  reserve_unset :
      (s : Pooled E) (e' : E)
      → s.pool.slots ≡ none
      → calloc_array s.rest ≡ done (true, e')
      → reserve_array max calloc_array new_entry s
        ≡ done (tt, record { rest = e'; pool = record s.pool { slots = some (λ i. none) } })
  unfolding reserve_array
  reserve_unset s e' e made = ground (arith, e, made)

  -- A refill, from any state between two calls, fills the whole array.
  reallocate_entries_lem :
      (s : Pooled E)
      → IsPool max s.pool
      → (s' : Pooled E) × (f' : ℕ → Option ℕ) × (reallocate_entries max calloc_array new_entry s
          ≡ done (tt, s'))
        × (s'.pool.slots ≡ some f')
        × (s'.pool.current_num ≡ max)
        × (s'.pool.free_buffer_idx ≡ 0)
        × ((j : ℕ) → j < max → IsFull (f' j))
  unfolding reallocate_entries
  reallocate_entries_lem s v = elim (Option-cases s.pool.slots) [
    | inl unset ↦
        let (e', made) = has_array s.rest in
        let fresh : Pooled E = record {
          rest = e';
          pool = record s.pool { slots = some (λ i. none) };
        } in
        let (s1, f1, run, e1, full, all) =
          fill_slots_lem max 0 max fresh (λ i. none) (omega arith) (omega arith) refl
            (IsFilling-fresh (fresh_counter s.pool unset v)) in
        (
          record s1 { pool = record s1.pool { free_buffer_idx = 0 } },
          f1,
          rw (reserve_unset s e' unset made, run),
          e1,
          full,
          refl,
          all,
        )
    | inr (f, e) ↦
        let (s1, f1, run, e1, full, all) =
          fill_slots_lem max 0 s.pool.free_buffer_idx s f (omega arith) (filling s.pool f e v).0 e
            (filling s.pool f e v).1 in
        (
          record s1 { pool = record s1.pool { free_buffer_idx = 0 } },
          f1,
          rw (reserve_set s f e, run),
          e1,
          full,
          refl,
          all,
        )
  ]

  take_slot_lem :
      (s : Pooled E) (f : ℕ → Option ℕ)
      → s.pool.slots ≡ some f
      → s.pool.free_buffer_idx < max
      → IsFilling max 0 s.pool.free_buffer_idx s.pool.current_num f
      → (p : ℕ) × (s' : Pooled E) × (take_slot max calloc_array new_entry s ≡ done (some p, s'))
        × IsPool max s'.pool
        × (s'.pool.current_num ≡ s.pool.current_num - 1)
  unfolding take_slot
  take_slot_lem s f e h v = elim (Option-cases (f s.pool.free_buffer_idx)) [
    | inl missing ↦ absurd (v.above s.pool.free_buffer_idx (omega arith) h missing)
    | inr (p, full) ↦ (
      p,
      record s {
        pool = record {
          slots = some (update f s.pool.free_buffer_idx none);
          current_num = s.pool.current_num - 1;
          free_buffer_idx = s.pool.free_buffer_idx + 1;
        };
      },
      ground (arith, e, full, h),
      IsPool-taken s.pool f h v,
      refl,
    )
  ]

  -- For an array of at least ten entries whose allocations succeed, and between two calls:
  -- get_empty_buffer returns a pointer that is not null, and leaves the pool as it is between two
  -- calls, with at least nine entries.
  pub get_empty_buffer_lem :
      (s : Pooled E)
      → 10 ≤ max
      → IsPool max s.pool
      → (p : ℕ) × (s' : Pooled E) × (get_empty_buffer max calloc_array new_entry s
          ≡ done (some p, s'))
        × IsPool max s'.pool
        × (9 ≤ s'.pool.current_num)
  unfolding get_empty_buffer
  get_empty_buffer_lem s h v = elim (Bool-cases (ltb s.pool.current_num 10)) [
    | inl few ↦
        let (s1, f1, run, e1, full, zero_idx, all) = reallocate_entries_lem s v in
        let (p, s2, run2, ok, left) =
          take_slot_lem s1 f1 e1 (omega (arith, zero_idx))
            (IsFilling-full (omega arith) zero_idx full all) in
        (p, s2, rw (few, run) run2, ok, omega (arith, left, full))
    | inr many ↦ elim (Option-cases s.pool.slots) [
      | inl unset ↦ absurd (ground (arith, fresh_counter s.pool unset v))
      | inr (f, e) ↦
          let (p, s2, run2, ok, left) =
            take_slot_lem s f e (ground (arith, (filling s.pool f e v).1.counted))
              (filling s.pool f e v).1 in
          (p, s2, rw many run2, ok, ground (arith, left))
    ]
  ]
