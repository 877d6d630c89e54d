-- ===== src/Server/Db/Insert.antt =====
-- db_insert of db.c on a key that is there.
use rdma_rendezvous_key_valu.Prelude.{
  ℕ, suc, ◌+◌, ◌/◌, ◌%◌, ◌≤◌, ◌<◌, ◌≡◌, refl, List, [], ◌∷◌, ◌++◌, some, update, arith, length,
  splice, strncpy_bytes, strncpy_bytes-suc, c_string, c_string-splice, IsCString, lt→ltb, le→leb,
  ==_refl,
}
use rdma_rendezvous_key_valu.Prelude.Exec.{done}
use rdma_rendezvous_key_valu.Platform.{Platform}
use rdma_rendezvous_key_valu.Server.Db.{u32, Buffer, Entry, DbRest, Db}
use rdma_rendezvous_key_valu.Server.Db.Items.{
  db_insert, db_reallocate_item, strncpy_value, check_key,
}

module _ ⦃x : Platform⦄ where
  -- The entry e with the value stored in its buffer b, as db_insert leaves it.
  abbrev pub with_value : Entry → Buffer → List ℕ → Entry
  with_value e b value = record e {
    size = suc (length value);
    value = some (record b { byte = splice b.byte 0 (value ++ 0 ∷ []) });
  }

  -- That the entry e at p, of the key, has room for the value.
  pub record HasRoom (s : Db) (key : List ℕ) (p : ℕ) (e : Entry) (b : Buffer) (value : List ℕ)
      : Type 0 where
    pub nonempty : (key ≡ []) → ⊥
    pub found : x.keys.find key s.rest.internal_db ≡ some p
    pub at : s.rest.entries p ≡ some e
    pub buffer : e.value ≡ some b
    pub allocated : e.allocated_size ≤ b.len
    pub room : length value + 1 < e.allocated_size / 2
    pub short : length value + 1 < u32

  abbrev resized : Db → ℕ → Entry → List ℕ → Db
  resized s p e value = record s {
    rest = record s.rest {
      entries = update s.rest.entries p (some (record e { size = suc (length value) }));
    };
  }

  pub check_key_nonempty : (key : List ℕ) (s : Db) → (key ≡ [] → ⊥) → check_key key s ≡ done (tt, s)
  unfolding check_key
  check_key_nonempty [] s h = absurd (h refl)
  check_key_nonempty (c ∷ key) s h = refl

  pub strncpy_value_lem :
      (p : ℕ) (value : List ℕ) (r : DbRest) (e : Entry) (b : Buffer)
      → r.entries p ≡ some e
      → e.value ≡ some b
      → e.size ≤ b.len
      → strncpy_value p value r
        ≡ done (
          tt,
          record r {
            entries = update r.entries p (
                some (record e {
                  value = some (record b { byte = splice b.byte 0 (strncpy_bytes value e.size) });
                }));
          },
        )
  unfolding strncpy_value
  strncpy_value_lem p value r e b at buffer h = rw (at, buffer, le→leb e.size b.len h)

  module _ (key : List ℕ) (value : List ℕ) (s : Db) (p : ℕ) (e : Entry) (b : Buffer) where
    size_lem : HasRoom s key p e b value → (length value + 1) % u32 ≡ suc (length value)
    size_lem h = omega (arith, h.short)

    reallocate_in_place :
        HasRoom s key p e b value
        → db_reallocate_item key (length value + 1) s ≡ done (tt, resized s p e value)
    unfolding db_reallocate_item
    reallocate_in_place h =
        rw (h.found, h.at, lt→ltb (length value + 1) (e.allocated_size / 2) h.room, size_lem h)

    abbrev pub inserted : Db
    inserted = record s {
      rest = record s.rest {
        entries = update (resized s p e value).rest.entries p (some (with_value e b value));
      };
    }

    resized_at :
        (resized s p e value).rest.entries p ≡ some (record e { size = suc (length value) })
    resized_at = rw (==_refl p)

    fits : HasRoom s key p e b value → suc (length value) ≤ b.len
    fits h = omega (arith, h.room, h.allocated)

    copied : strncpy_bytes value (suc (length value)) ≡ value ++ 0 ∷ []
    copied = strncpy_bytes-suc value

    -- db_insert of a key that is there, and whose value with its terminator needs less than half
    -- of what is allocated, overwrites the buffer, ends the value with a terminator and counts the
    -- terminator in the size. It allocates nothing, and changes neither the table nor another
    -- entry.
    pub db_insert-found : HasRoom s key p e b value → db_insert key value s ≡ done (tt, inserted)
    unfolding db_insert
    db_insert-found h = rw (
      check_key_nonempty key s h.nonempty,
      h.found,
      reallocate_in_place h,
      strncpy_value_lem p value (resized s p e value).rest (record e { size = suc (length value) })
          b resized_at h.buffer (fits h),
      copied,
    )

    -- The value is read back whole, from the bytes that the size counts and also from any longer
    -- stretch of the buffer.
    pub inserted_value :
        (n : ℕ)
        → IsCString value
        → length value < n
        → c_string n (splice b.byte 0 (value ++ 0 ∷ [])) ≡ some value
    inserted_value n c h = c_string-splice value n b.byte c h
