-- ===== src/Server/Db/Map/Init.antt =====
-- db_init of db.c: the preallocated entries and the bogus key.
use rdma_rendezvous_key_valu.Prelude.{
  if◌then◌else◌, ℕ, suc, ◌+◌, ◌*◌, ◌≤◌, ◌<◌, ◌≡◌, ◌≢◌, refl, ap, sym, ◌∙◌, true, List, [], ◌∷◌,
  Option, some, none, update, update_twice, arith, zeroed, c_string-agrees, ==_refl, ne→==_false,
  inl, inr, Bool-cases, str_eq, str_eq_sound, Option-cases,
}
use native.Mathlib.Decide.{dec_lt}
use rdma_rendezvous_key_valu.Prelude.Exec.{done}
use rdma_rendezvous_key_valu.Platform.{Platform}
use rdma_rendezvous_key_valu.Common.Constants.{client_request_payload_len}
use rdma_rendezvous_key_valu.Server.Pool.First.{get_empty_buffer-Filled}
use rdma_rendezvous_key_valu.Server.Pool.Stock.{taken}
use rdma_rendezvous_key_valu.Server.Db.{
  Buffer, Mr, Entry, DbRest, Db, no_db, allocated_size_of_entry, max_allocated_entries,
  new_db_entry, calloc_array, db_empty_buffer,
}
use rdma_rendezvous_key_valu.Server.Db.Entry.{roundup_bounds}
use rdma_rendezvous_key_valu.Server.Db.Items.{db_init}
use rdma_rendezvous_key_valu.Server.Db.Locks.{init-IsLocked}
use rdma_rendezvous_key_valu.Server.Db.Fresh.{IsBlank, strncpy_key_lem, hash_add_lem}
use rdma_rendezvous_key_valu.Server.Db.Map.{ValueMap, put_value, Holds, Represents}

-- The bogus key.
abbrev pub bla : List ℕ
bla = 98 ∷ 108 ∷ 97 ∷ []

-- The map that db_init makes.
abbrev pub bogus_map : ValueMap
bogus_map = put_value bla [] (λ k. none)

module _ ⦃x : Platform⦄ where
  -- The pointer that the fill puts into the slot i: every entry takes four calls of the platform,
  -- and the array the first one.
  abbrev slot_of : ℕ → ℕ
  slot_of i = 4 * i + 2

  record Filled (i : ℕ) (e : DbRest) (f : ℕ → Option ℕ) : Type 0 where
    table : e.internal_db ≡ x.keys.empty
    calls : e.calls ≡ 4 * i + 1
    slots : (j : ℕ) → j < i → f j ≡ some (slot_of j)
    live :
        (j : ℕ)
        → j < i
        → (d : Entry) × (old : List ℕ) × (b : Buffer) × (e.entries (slot_of j) ≡ some d)
          × IsBlank d old b

  module _ (alloc : (c : ℕ) → x.calloc c ≡ true) where
    abbrev new_buffer : DbRest → Buffer
    new_buffer e = record {
      addr = suc (suc (suc e.calls));
      len = 2 * allocated_size_of_entry;
      byte = zeroed;
    }

    abbrev new_entry : DbRest → Option Mr → Entry
    new_entry e mr = record {
      key = some [];
      value = some (new_buffer e);
      keylen = 0;
      size = 0;
      allocated_size = 2 * allocated_size_of_entry;
      mr = mr;
      lock = x.rwlock.init;
      num_readers = 0;
      num_writers = 0;
    }

    new_entry-IsBlank : (e : DbRest) (mr : Option Mr) → IsBlank (new_entry e mr) [] (new_buffer e)
    new_entry-IsBlank e mr = record {
      key = refl;
      value = refl;
      zeroes = refl;
      allocated = refl;
      len = omega arith;
      readers = refl;
      writers = refl;
    }

    -- The region may be null, which the code does not test.
    new_db_entry-IsBlank :
        (e : DbRest)
        → (d : Entry) × (old : List ℕ) × (b : Buffer) × (new_db_entry e
            ≡ done (
              suc e.calls,
              record e {
                entries = update e.entries (suc e.calls) (some d);
                calls = suc (suc (suc (suc e.calls)));
              },
            ))
          × IsBlank d old b
    unfolding new_db_entry
    new_db_entry-IsBlank e =
        let b = new_buffer e in
        let first = alloc e.calls in
        let second = alloc (suc e.calls) in
        let third = alloc (suc (suc e.calls)) in
        elim (Option-cases (x.ibv_reg_mr (suc (suc (suc e.calls))))) [
          | inl failed ↦
              (new_entry e none, [], b, rw (first, second, third, failed), new_entry-IsBlank e none)
          | inr (rkey, reg) ↦
              let m : Mr = record { rkey = rkey; addr = b.addr; len = b.len } in
              (
                new_entry e (some m),
                [],
                b,
                rw (first, second, third, reg, third),
                new_entry-IsBlank e (some m),
              )
        ]

    makes :
        (i : ℕ) (e : DbRest) (f : ℕ → Option ℕ)
        → Filled i e f
        → (p : ℕ) × (e' : DbRest) × (new_db_entry e ≡ done (p, e'))
          × Filled (i + 1) e' (update f i (some p))
    makes i e f ok =
        let (d, old, b, made, blank) = new_db_entry-IsBlank e in
        (
          suc e.calls,
          _,
          made,
          record {
            table = ok.table;
            calls = omega (arith, ok.calls);
            slots = λ j h. ground (arith, ok.slots j, ok.calls);
            live = λ j h. elim (dec_lt j i) [
              | yes before ↦
                  let (d', old', b', at, blank') = ok.live j before in
                  let ne : suc e.calls ≢ slot_of j = λ same. omega (arith, ok.calls, same) in
                  (d', old', b', rw (ne→==_false (suc e.calls) (slot_of j) ne) at, blank')
              | no past ↦
                  let same : slot_of j ≡ suc e.calls = omega (arith, ok.calls) in
                  (d, old, b, rw (same, ==_refl (suc e.calls)), blank)
            ];
          },
        )

    first_array : calloc_array no_db.rest ≡ done (true, record no_db.rest { calls = 1 })
    unfolding calloc_array
    first_array = rw (alloc 0)

    -- The bogus entry of db_init, made of a blank one.
    abbrev bogus_entry : Entry → Entry
    bogus_entry d = record d { key = some bla; keylen = 3; size = 1; lock = x.rwlock.init }

    abbrev bogus : Db → (ℕ → Option ℕ) → Entry → Db
    bogus s f d = record (taken s f) {
      rest = record s.rest {
        internal_db = x.keys.add bla 2 s.rest.internal_db;
        entries = update s.rest.entries 2 (some (bogus_entry d));
      };
    }

    db_init_lem :
        3 ≤ allocated_size_of_entry
        → (s : Db) (f : ℕ → Option ℕ) (d : Entry) (old : List ℕ) (b : Buffer)
        → db_empty_buffer no_db ≡ done (some 2, taken s f)
        → s.rest.entries 2 ≡ some d
        → IsBlank d old b
        → db_init no_db ≡ done (tt, bogus s f d)
    unfolding db_init
    db_init_lem room s f d old b run at blank =
        let r = s.rest in
        let d1 : Entry = record d { keylen = 3 } in
        let d2 : Entry = record d1 { key = some bla } in
        simp (
          run,
          at,
          strncpy_key_lem r 2 d1 bla old 3 blank.key (omega arith) room,
          update_twice r.entries 2 (some d2) (some (bogus_entry d)),
          hash_add_lem r 2 (bogus_entry d) bla refl refl,
        )

    not_bogus : (p : ℕ) (k : List ℕ) → 2 ≢ p → (if str_eq bla k then some 2 else none) ≡ some p → ⊥
    not_bogus p k ne h = elim (Bool-cases (str_eq bla k)) [
      | inl hit ↦ let same : ◌≡◌ {A = Option ℕ} (some 2) (some p) = rw hit at h in ne cc
      | inr miss ↦ cc (rw miss at h)
    ]

    bogus-Represents :
        0 < allocated_size_of_entry
        → (s : Db) (f : ℕ → Option ℕ) (d : Entry) (old : List ℕ) (b : Buffer)
        → s.pool.current_num ≡ 1000
        → s.pool.free_buffer_idx ≡ 0
        → Filled 1000 s.rest f
        → s.rest.entries 2 ≡ some d
        → IsBlank d old b
        → Represents (bogus s f d) bogus_map 990 (update f s.pool.free_buffer_idx none)
    bogus-Represents room s f d old b counted idx ok at blank =
        let absent = λ (k : List ℕ). ap (x.keys.find k) ok.table ∙ x.keys.find-empty k in
        let found : (k : List ℕ)
            → x.keys.find k (x.keys.add bla 2 s.rest.internal_db)
              ≡ (if str_eq bla k then some 2 else none) =
          λ k. rw (x.keys.find-add bla k 2 s.rest.internal_db (absent bla), absent k) in
        let f' = update f s.pool.free_buffer_idx none in
        let slot : (i : ℕ)
            → i < 990
            → f' (s.pool.free_buffer_idx + 1 + i) ≡ some (slot_of (suc i)) =
          λ i below.
            let i-suc : s.pool.free_buffer_idx + 1 + i ≡ suc i = omega (arith, idx) in
            let ne : s.pool.free_buffer_idx ≢ suc i = λ h. omega (arith, idx, h) in
            rw (i-suc, ne→==_false s.pool.free_buffer_idx (suc i) ne)
              (ok.slots (suc i) (omega arith)) in
        let new : Holds (bogus s f d) bla (some []) = (
          2,
          bogus_entry d,
          b,
          found bla,
          refl,
          record {
            key_at = refl;
            value_at = blank.value;
            text = rw blank.zeroes (
                c_string-agrees [] b.len zeroed tt (omega (arith, blank.allocated, blank.len))
                  (λ i h. ground arith));
            allocated = blank.allocated;
            len = blank.len;
            locked = init-IsLocked (bogus_entry d) refl blank.readers blank.writers;
            free = omega (arith, blank.readers, blank.writers);
          },
        ) in
        record {
          slots = refl;
          enough = omega (arith, counted);
          inside = omega (arith, idx);
          spare = λ i below.
              let (d', old', b', at', blank') = ok.live (suc i) (omega arith) in
              let ne : 2 ≢ slot_of (suc i) = λ h. omega arith in
              (
                slot_of (suc i),
                d',
                old',
                b',
                slot i below,
                rw (ne→==_false 2 (slot_of (suc i)) ne) at',
                blank',
                λ k h. not_bogus (slot_of (suc i)) k ne (sym (found k) ∙ h),
              );
          distinct = λ i j hi hj h.
              let same : some (slot_of (suc i)) ≡ some (slot_of (suc j)) =
                sym (slot i hi) ∙ h ∙ slot j hj in
              let slots_same : slot_of (suc i) ≡ slot_of (suc j) = cc in omega (arith, slots_same);
          holds = λ k. elim (Bool-cases (str_eq bla k)) [
            | inl hit ↦ rw (hit, ← str_eq_sound bla k hit) new
            | inr miss ↦ rw miss (rw (found k, miss))
          ];
        }

    -- If every allocation succeeds and a page has at least 3 bytes, db_init returns from the state
    -- in which the server starts. The table then stands for the map with the one key "bla", whose
    -- value is the empty string, and 990 new keys can be inserted before entries are allocated
    -- again.
    pub db_init-Represents :
        3 ≤ x.page_size
        → (s : Db) × (f : ℕ → Option ℕ) × (db_init no_db ≡ done (tt, s))
          × Represents s bogus_map 990 f
    unfolding db_empty_buffer
    db_init-Represents page =
        let (s, f, counted, idx, ok, run) =
          get_empty_buffer-Filled max_allocated_entries calloc_array new_db_entry Filled makes
            no_db.rest (record no_db.rest { calls = 1 }) (omega arith) first_array
            (record {
              table = refl;
              calls = refl;
              slots = λ j h. absurd (omega arith);
              live = λ j h. absurd (omega arith);
            }) in
        let (d, old, b, at, blank) = ok.live 0 (omega arith) in
        let rounded = roundup_bounds x.page_size client_request_payload_len (omega arith) in
        (
          bogus s f d,
          update f s.pool.free_buffer_idx none,
          db_init_lem (omega (arith, rounded)) s f d old b (run 2 (ok.slots 0 (omega arith))) at
              blank,
          bogus-Represents (omega (arith, rounded)) s f d old b counted idx ok at blank,
        )
