-- ===== src/Server/Db/Resize.antt =====
-- db_reallocate_item on an entry whose buffer is registered, with room for the value or without.
use rdma_rendezvous_key_valu.Prelude.{
  ℕ, suc, ◌/◌, ◌%◌, ◌≤◌, ◌<◌, ◌≡◌, refl, true, List, some, update, arith, inl, inr, Bool-cases, ltb,
}
use rdma_rendezvous_key_valu.Prelude.Exec.{done}
use rdma_rendezvous_key_valu.Platform.{Platform}
use rdma_rendezvous_key_valu.Server.Db.{u32, Buffer, Mr, Entry, DbRest, Db}
use rdma_rendezvous_key_valu.Server.Db.Items.{db_reallocate_item}
use rdma_rendezvous_key_valu.Server.Db.Locks.{IsLocked}
use rdma_rendezvous_key_valu.Server.Db.Entry.{grown, db_reallocate_item-grows}

module _ ⦃x : Platform⦄ where
  -- What is allocated for the entry lies in its buffer b and in its region m, which starts there.
  pub record IsRegistered (e : Entry) (b : Buffer) (m : Mr) : Type 0 where
    pub buffer : e.value ≡ some b
    pub region : e.mr ≡ some m
    pub start : m.addr ≡ b.addr
    pub in_buffer : e.allocated_size ≤ b.len
    pub in_region : e.allocated_size ≤ m.len

  abbrev pub SameLock : Entry → Entry → Type 0
  SameLock e e' =
      (e'.key ≡ e.key)
      × (e'.lock ≡ e.lock)
      × (e'.num_readers ≡ e.num_readers)
      × (e'.num_writers ≡ e.num_writers)

  pub SameLock-IsLocked : (e e' : Entry) → SameLock e e' → IsLocked e → IsLocked e'
  SameLock-IsLocked e e' (key, lock, readers, writers) v = record {
    reads = rw (lock, readers) v.reads;
    writes = rw (lock, writers) v.writes;
    alone = rw (readers, writers) v.alone;
  }

  abbrev pub resized : DbRest → ℕ → Entry → ℕ → DbRest
  resized r p e calls = record r { entries = update r.entries p (some e); calls = calls }

  -- The entry e' has room for n bytes, all of them in its buffer and its region.
  pub record IsResized (e e' : Entry) (b : Buffer) (m : Mr) (n : ℕ) : Type 0 where
    pub registered : IsRegistered e' b m
    pub room : n ≤ e'.allocated_size
    pub size : e'.size ≡ n
    pub same : SameLock e e'

  pub db_reallocate_item-IsResized :
      (key : List ℕ) (n p rkey : ℕ) (e : Entry) (b : Buffer) (m : Mr) (s : Db)
      → x.keys.find key s.rest.internal_db ≡ some p
      → s.rest.entries p ≡ some e
      → IsRegistered e b m
      → n < u32
      → 0 < x.page_size
      → x.calloc s.rest.calls ≡ true
      → x.ibv_reg_mr (suc s.rest.calls) ≡ some rkey
      → (calls : ℕ) × (e' : Entry) × (b' : Buffer) × (m' : Mr) × (db_reallocate_item key n s
          ≡ done (tt, record s { rest = resized s.rest p e' calls }))
        × IsResized e e' b' m' n
  unfolding db_reallocate_item
  db_reallocate_item-IsResized key n p rkey e b m s found at v small page alloc reg =
      let short : n % u32 ≡ n = omega (arith, small) in
      elim (Bool-cases (ltb n (e.allocated_size / 2))) [
        | inl fits ↦ (
          s.rest.calls,
          record e { size = n },
          b,
          m,
          rw (found, at, fits, short),
          record {
            registered = record {
              buffer = v.buffer;
              region = v.region;
              start = v.start;
              in_buffer = v.in_buffer;
              in_region = v.in_region;
            };
            room = ground (arith, fits);
            size = refl;
            same = (refl, refl, refl, refl);
          },
        )
        | inr large ↦
            let (run, _, _, enough, _) =
              db_reallocate_item-grows key n p rkey e s found at (ground (arith, large)) page in
            (
              suc (suc s.rest.calls),
              grown s.rest e n rkey,
              _,
              _,
              run alloc reg,
              record {
                registered = record {
                  buffer = refl;
                  region = refl;
                  start = refl;
                  in_buffer = omega arith;
                  in_region = omega arith;
                };
                room = omega (arith, enough);
                size = short;
                same = (refl, refl, refl, refl);
              },
            )
      ]
