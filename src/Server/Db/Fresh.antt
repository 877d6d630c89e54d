-- ===== src/Server/Db/Fresh.antt =====
-- db_insert of db.c on a key that is not there, with enough preallocated entries.
use rdma_rendezvous_key_valu.Prelude.{
  ℕ, ◌+◌, ◌-◌, ◌*◌, ◌%◌, ◌≤◌, ◌<◌, ◌≡◌, refl, List, [], some, Option, update, arith, length,
  take_all, ap, update_twice, splice, strncpy_bytes-length, zeroed, le→leb, ==_refl,
}
use rdma_rendezvous_key_valu.Prelude.Exec.{done}
use rdma_rendezvous_key_valu.Platform.{Platform}
use rdma_rendezvous_key_valu.Server.Pool.Stock.{HasNext, taken, get_empty_buffer-HasNext}
use rdma_rendezvous_key_valu.Server.Db.{
  u32, Buffer, Entry, DbRest, Db, allocated_size_of_entry, max_allocated_entries, db_empty_buffer,
  load, store,
}
use rdma_rendezvous_key_valu.Server.Db.Items.{insert_new, hash_add, strncpy_key, strncpy_value}
use rdma_rendezvous_key_valu.Server.Db.Locks.{with_entry}

module _ ⦃x : Platform⦄ where
  -- A preallocated entry that was not used: a buffer of zeroes, and one for the key.
  pub record IsBlank (e : Entry) (old : List ℕ) (b : Buffer) : Type 0 where
    pub key : e.key ≡ some old
    pub value : e.value ≡ some b
    pub zeroes : b.byte ≡ zeroed
    pub allocated : e.allocated_size ≡ 2 * allocated_size_of_entry
    pub len : e.allocated_size ≤ b.len
    pub readers : e.num_readers ≡ 0
    pub writers : e.num_writers ≡ 0

  -- A key and a value with room for each in a preallocated entry.
  pub record Fits (key value : List ℕ) : Type 0 where
    pub nonempty : (key ≡ []) → ⊥
    pub key_room : length key + 1 ≤ allocated_size_of_entry
    pub key_short : length key + 1 < u32
    pub value_room : length value + 1 < allocated_size_of_entry
    pub value_short : length value + 1 < u32

  abbrev pub fresh_entry : List ℕ → List ℕ → Entry → Buffer → Entry
  fresh_entry key value e b = record e {
    key = some key;
    value = some (record b { byte = splice zeroed 0 value });
    keylen = length key;
    size = length value;
    lock = x.rwlock.init;
  }

  abbrev pub inserted_fresh : List ℕ → List ℕ → Db → (ℕ → Option ℕ) → ℕ → Entry → Buffer → Db
  inserted_fresh key value s f p e b = record (taken s f) {
    rest = record s.rest {
      internal_db = x.keys.add key p s.rest.internal_db;
      entries = update s.rest.entries p (some (fresh_entry key value e b));
    };
  }

  db_empty_buffer-HasNext :
      (s : Db) (f : ℕ → Option ℕ) (p : ℕ)
      → HasNext max_allocated_entries s.pool f p
      → db_empty_buffer s ≡ done (some p, taken s f)
  unfolding db_empty_buffer
  db_empty_buffer-HasNext s f p h = get_empty_buffer-HasNext max_allocated_entries _ _ s f p h

  with_entry_twice :
      (r : DbRest) (p : ℕ) (e e' : Entry) → with_entry (with_entry r p e) p e' ≡ with_entry r p e'
  with_entry_twice r p e e' =
      ap (λ (g : ℕ → Option Entry). record r { entries = g })
        (update_twice r.entries p (some e) (some e'))

  module _ (r : DbRest) (p : ℕ) (e : Entry) where
    load_self : load p (with_entry r p e) ≡ done (e, with_entry r p e)
    unfolding load
    load_self = rw (==_refl p)

    store_self : (e' : Entry) → store p e' (with_entry r p e) ≡ done (tt, with_entry r p e')
    unfolding store
    store_self e' = ap (λ d. done (tt, d)) (with_entry_twice r p e e')

    pub strncpy_key_lem :
        (key old : List ℕ) (n : ℕ)
        → e.key ≡ some old
        → length key ≤ n
        → n ≤ allocated_size_of_entry
        → strncpy_key p key n (with_entry r p e)
          ≡ done (tt, with_entry r p (record e { key = some key }))
    unfolding strncpy_key
    strncpy_key_lem key old n named whole room = simp (
      load_self,
      named,
      le→leb n allocated_size_of_entry room,
      take_all key n whole,
      store_self (record e { key = some key }),
    )

    strncpy_value_self :
        (value : List ℕ) (b : Buffer)
        → e.value ≡ some b
        → b.byte ≡ zeroed
        → e.size ≡ length value
        → length value ≤ b.len
        → strncpy_value p value (with_entry r p e)
          ≡ done (
            tt,
            with_entry r p (record e { value = some (record b { byte = splice zeroed 0 value }) }),
          )
    unfolding strncpy_value
    strncpy_value_self value b at zeroes size room = simp (
      load_self,
      at,
      size,
      le→leb (length value) b.len room,
      strncpy_bytes-length value,
      zeroes,
      update_twice,
    )

    pub hash_add_lem :
        (key : List ℕ)
        → e.key ≡ some key
        → e.keylen ≡ length key
        → hash_add p (with_entry r p e)
          ≡ done (tt, record (with_entry r p e) { internal_db = x.keys.add key p r.internal_db })
    unfolding hash_add
    hash_add_lem key named len = rw (load_self, named, len, take_all key (length key) (omega arith))

  pub insert_new_lem :
      (key value : List ℕ) (s : Db) (f : ℕ → Option ℕ) (p : ℕ) (e : Entry) (old : List ℕ)
      (b : Buffer)
      → HasNext max_allocated_entries s.pool f p
      → s.rest.entries p ≡ some e
      → IsBlank e old b
      → Fits key value
      → insert_new key value s ≡ done (tt, inserted_fresh key value s f p e b)
  unfolding insert_new
  insert_new_lem key value s f p e old b h at blank fits =
      let r = s.rest in
      let key_len : length key % u32 ≡ length key = omega (arith, fits.key_short) in
      let key_size : (length key + 1) % u32 ≡ length key + 1 = omega (arith, fits.key_short) in
      let size : (length value + 1 - 1) % u32 ≡ length value = omega (arith, fits.value_short) in
      let e1 : Entry = record e { keylen = length key } in
      let e2 : Entry = record e1 { key = some key } in
      let e3 : Entry = record e2 { size = length value } in
      let e4 : Entry = record e3 { value = some (record b { byte = splice zeroed 0 value }) } in
      let e5 : Entry = record e4 { lock = x.rwlock.init } in
      let room : length value ≤ b.len =
        omega (arith, fits.value_room, blank.allocated, blank.len) in
      simp (
        db_empty_buffer-HasNext s f p h,
        at,
        key_len,
        key_size,
        size,
        strncpy_key_lem r p e1 key old (length key + 1) blank.key (omega arith) fits.key_room,
        ==_refl p,
        update_twice r.entries p (some e2) (some e3),
        strncpy_value_self r p e3 value b blank.value blank.zeroes refl room,
        update_twice r.entries p (some e4) (some e5),
        hash_add_lem r p e5 key refl refl,
      )
