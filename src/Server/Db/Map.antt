-- ===== src/Server/Db/Map.antt =====
-- The table of db.c as a map from keys to values, while there are enough preallocated entries.
pub mod Insert
pub mod Init
pub mod Boot
use rdma_rendezvous_key_valu.Prelude.{
  ℕ, suc, zero, ◌+◌, ◌-◌, ◌*◌, ◌/◌, ◌≤◌, ◌<◌, ◌≡◌, ◌≢◌, refl, ap, subst, ◌∙◌, sym, Bool, true,
  false, List, [], ◌∷◌, Option, some, none, update, arith, str_eq, str_eq_sound, str_eq_refl,
  c_string, c_string-zeroed, IsCString, length, ==_refl, Bool-cases, Option-cases, inl, inr,
  if◌then◌else◌, ◌==◌, ne→==_false,
}
use rdma_rendezvous_key_valu.Prelude.Exec.{done, Exec, pure, ◌>>◌}
use rdma_rendezvous_key_valu.Platform.{Platform}
use rdma_rendezvous_key_valu.Server.Pool.Stock.{HasNext}
use rdma_rendezvous_key_valu.Server.Db.{
  Buffer, Entry, DbRest, Db, allocated_size_of_entry, max_allocated_entries,
}
use rdma_rendezvous_key_valu.Server.Db.Items.{db_insert, db_get}
use rdma_rendezvous_key_valu.Server.Db.Locks.{IsLocked}
use rdma_rendezvous_key_valu.Server.Db.Insert.{
  HasRoom, with_value, inserted, db_insert-found, inserted_value, check_key_nonempty,
}
use rdma_rendezvous_key_valu.Server.Db.Fresh.{
  IsBlank, Fits, fresh_entry, inserted_fresh, insert_new_lem,
}

-- What the table means: the value of each key.
abbrev pub ValueMap : Type 0
ValueMap = List ℕ → Option (List ℕ)

abbrev pub put_value : List ℕ → List ℕ → ValueMap → ValueMap
put_value key value m j = if str_eq key j then some value else m j

module _ ⦃x : Platform⦄ where
  -- The entry of a key, which nobody holds and whose buffer holds the value.
  pub record IsStored (e : Entry) (key : List ℕ) (b : Buffer) (value : List ℕ) : Type 0 where
    pub key_at : e.key ≡ some key
    pub value_at : e.value ≡ some b
    pub text : c_string b.len b.byte ≡ some value
    pub allocated : e.allocated_size ≡ 2 * allocated_size_of_entry
    pub len : e.allocated_size ≤ b.len
    pub locked : IsLocked e
    pub free : e.num_readers + e.num_writers ≡ 0

  abbrev pub Holds : Db → List ℕ → Option (List ℕ) → Type 0
  Holds s key none = (x.keys.find key s.rest.internal_db ≡ none)
  Holds s key (some value) =
      (p : ℕ) × (e : Entry) × (b : Buffer) × (x.keys.find key s.rest.internal_db ≡ some p)
      × (s.rest.entries p ≡ some e)
      × IsStored e key b value

  -- The pointer at i of the array is that of an unused entry, which is not in the table.
  abbrev pub Spare : Db → (ℕ → Option ℕ) → ℕ → Type 0
  Spare s f i =
      (p : ℕ) × (e : Entry) × (old : List ℕ) × (b : Buffer) × (f i ≡ some p)
      × (s.rest.entries p ≡ some e)
      × IsBlank e old b
      × ((k : List ℕ) → x.keys.find k s.rest.internal_db ≢ some p)

  -- The table is the map m, and `left` new keys can be inserted before entries are allocated again.
  pub record Represents (s : Db) (m : ValueMap) (left : ℕ) (f : ℕ → Option ℕ) : Type 0 where
    pub slots : s.pool.slots ≡ some f
    pub enough : left + 9 ≤ s.pool.current_num
    pub inside : s.pool.free_buffer_idx + left ≤ max_allocated_entries
    pub spare : (i : ℕ) → i < left → Spare s f (s.pool.free_buffer_idx + i)
    pub distinct :
        (i j : ℕ)
        → i < left
        → j < left
        → f (s.pool.free_buffer_idx + i) ≡ f (s.pool.free_buffer_idx + j)
        → i ≡ j
    pub holds : (key : List ℕ) → Holds s key (m key)

  -- A key for which neither its pointer nor what the pointer points to has changed.
  pub Holds-elsewhere :
      (s s' : Db) (p : ℕ) (key : List ℕ) (o : Option (List ℕ))
      → ((q : ℕ) → p ≢ q → s'.rest.entries q ≡ s.rest.entries q)
      → x.keys.find key s'.rest.internal_db ≡ x.keys.find key s.rest.internal_db
      → x.keys.find key s.rest.internal_db ≢ some p
      → Holds s key o
      → Holds s' key o
  Holds-elsewhere s s' p key none same found ne h = found ∙ h
  Holds-elsewhere s s' p key (some value) same found ne (q, e, b, at, live, ok) =
      let away : p ≢ q = λ p-q. ne (at ∙ ap some (sym p-q)) in
      (q, e, b, found ∙ at, same q away ∙ live, ok)

  -- The entry of a key has that key.
  pub key_of :
      (s : Db) (key : List ℕ) (o : Option (List ℕ)) (p : ℕ) (e : Entry)
      → Holds s key o
      → x.keys.find key s.rest.internal_db ≡ some p
      → s.rest.entries p ≡ some e
      → e.key ≡ some key
  key_of s key none p e h at live = cc
  key_of s key (some value) p e (q, e', b, at', live', ok) at live =
      let q-p : q ≡ p = cc in
      let same : some e' ≡ some e = sym live' ∙ ap s.rest.entries q-p ∙ live in
      let e-e : e' ≡ e = cc in ap (λ e. e.key) (sym e-e) ∙ ok.key_at

  pub other_key :
      (key j : List ℕ) → str_eq key j ≡ false → (e : Entry) → e.key ≡ some key → e.key ≡ some j → ⊥
  other_key key j miss e at at' =
      let same : some key ≡ some j = sym at ∙ at' in
      let key-j : key ≡ j = cc in let hit : str_eq key j ≡ true = rw key-j (str_eq_refl j) in cc

  -- A key that was found at another entry than the new one was found before.
  pub earlier :
      (p q : ℕ) (key k : List ℕ) (o : Option ℕ)
      → p ≢ q
      → (if str_eq key k then some p else o) ≡ some q
      → o ≡ some q
  earlier p q key k o ne h = ground (arith, ne)

  -- A pointer of the array that is spare is no key's.
  pub unused_slot :
      (s : Db) (f : ℕ → Option ℕ) (i p : ℕ) (key : List ℕ)
      → Spare s f i
      → x.keys.find key s.rest.internal_db ≡ some p
      → f i ≢ some p
  unused_slot s f i p key (q, e, old, b, at, live, blank, unused) found slot =
      unused key (found ∙ sym slot ∙ at)
