-- ===== src/Server/Db/Items.antt =====
-- The functions of server_internals/db.c on the table of entries by key: db_get, db_insert,
-- db_reallocate_item and db_init.
use rdma_rendezvous_key_valu.Prelude.{
  ℕ, ◌+◌, ◌-◌, ◌*◌, ◌/◌, ◌%◌, List, [], ◌∷◌, Option, none, some, ltb, leb, if◌then◌else◌, length,
  take, splice, strncpy_bytes,
}
use rdma_rendezvous_key_valu.Prelude.Exec.{
  Exec, pure, exit, crash, gets, modify, deref, assert, ◌>>=◌, ◌>>◌,
}
use rdma_rendezvous_key_valu.Platform.{Platform}
use rdma_rendezvous_key_valu.Server.Pool.{in_rest}
use rdma_rendezvous_key_valu.Server.Db.{
  u32, DbRest, Db, roundup, allocated_size_of_entry, calloc_buffer, ibv_reg_mr, load, store,
  db_empty_buffer,
}

module _ ⦃x : Platform⦄ where
  unfoldable pub db_get : List ℕ → Exec Db (Option ℕ)
  db_get key = gets λ s. x.keys.find key s.rest.internal_db

  -- strncpy(s->key, key, n) into the buffer that new_db_entry allocated
  unfoldable pub strncpy_key : ℕ → List ℕ → ℕ → Exec DbRest (Unit {0})
  unfolding load store
  strncpy_key p key n = do
    s ← load p
    old ← deref s.key
    assert (leb n allocated_size_of_entry)
    store p (record s { key = some (take n key) })

  -- strncpy(s->value, value, s->size)
  unfoldable pub strncpy_value : ℕ → List ℕ → Exec DbRest (Unit {0})
  unfolding load store
  strncpy_value p value = do
    s ← load p
    b ← deref s.value
    assert (leb s.size b.len)
    store p (record s {
      value = some (record b { byte = splice b.byte 0 (strncpy_bytes value s.size) });
    })

  -- HASH_ADD_KEYPTR(hh, internal_db, s->key, s->keylen, s)
  unfoldable pub hash_add : ℕ → Exec DbRest (Unit {0})
  unfolding load
  hash_add p = do
    s ← load p
    key ← deref s.key
    modify λ d. record d { internal_db = x.keys.add (take s.keylen key) p d.internal_db }

  -- db_insert, from `if (s == NULL)`
  unfoldable pub insert_new : List ℕ → List ℕ → Exec Db (Unit {0})
  unfolding load store
  insert_new key value = do
    found ← db_empty_buffer
    p ← deref found
    in_rest do
      s ← load p
      let keylen = length key % u32
      store p (record s { keylen = keylen })
      strncpy_key p key ((keylen + 1) % u32)
      e ← load p
      store p (record e { size = (length value + 1 - 1) % u32 })
      strncpy_value p value
      f ← load p
      store p (record f { lock = x.rwlock.init })
      hash_add p

  -- `strlen(key) == 0`
  unfoldable pub check_key : List ℕ → Exec Db (Unit {0})
  check_key [] = exit 1
  check_key (c ∷ key) = pure tt

  -- The part of db_reallocate_item behind `if (new_size < entry->_allocated_size / 2)`.
  unfoldable pub grow_value : ℕ → ℕ → Exec DbRest (Unit {0})
  unfolding load store calloc_buffer ibv_reg_mr
  grow_value p new_size = do
    let allocated_size = roundup (new_size * 4) x.page_size
    value ← calloc_buffer allocated_size
    elim value [
      | none ↦ exit 1
      | some b ↦ do
        mr ← ibv_reg_mr (some b) allocated_size
        elim mr [
          | none ↦ exit 1
          | some m ↦ do
            entry ← load p
            store p (record entry {
              value = some b;
              allocated_size = allocated_size;
              mr = some m;
              size = new_size % u32;
            })
        ]
    ]

  -- For a missing key the new entry's pointer is not read back, and the null pointer is used.
  unfoldable pub db_reallocate_item : List ℕ → ℕ → Exec Db (Unit {0})
  unfolding db_get load store check_key
  db_reallocate_item key new_size = do
    found ← db_get key
    elim found [
      | none ↦ do check_key key; insert_new key []; crash
      | some p ↦ in_rest do
        entry ← load p
        if ltb new_size (entry.allocated_size / 2)
            then store p (record entry { size = new_size % u32 })
            else grow_value p new_size
    ]

  unfoldable pub db_insert : List ℕ → List ℕ → Exec Db (Unit {0})
  unfolding check_key db_get
  db_insert key value = do
    check_key key
    found ← db_get key
    elim found [
      | none ↦ insert_new key value
      | some p ↦ do db_reallocate_item key (length value + 1); in_rest (strncpy_value p value)
    ]

  -- The bogus key is "bla".
  unfoldable pub db_init : Exec Db (Unit {0})
  unfolding load store
  db_init = do
    in_rest (modify λ d. record d { internal_db = x.keys.empty })
    found ← db_empty_buffer
    elim found [
      | none ↦ exit 255
      | some p ↦ in_rest do
        s ← load p
        store p (record s { keylen = 3 })
        strncpy_key p (98 ∷ 108 ∷ 97 ∷ []) 3
        e ← load p
        store p (record e { size = 1; lock = x.rwlock.init })
        hash_add p
    ]
