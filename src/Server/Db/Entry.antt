-- ===== src/Server/Db/Entry.antt =====
-- The buffer that db_reallocate_item makes for a value that needs more room.
use rdma_rendezvous_key_valu.Prelude.{
  ℕ, suc, ◌+◌, ◌*◌, ◌/◌, ◌%◌, ◌≤◌, ◌<◌, ◌≡◌, true, false, List, none, some, update, arith, zeroed,
  le→not-ltb,
}
use rdma_rendezvous_key_valu.Prelude.Exec.{done, exited}
use rdma_rendezvous_key_valu.Platform.{Platform}
use rdma_rendezvous_key_valu.Server.Db.{u32, roundup, Entry, DbRest, Db}
use rdma_rendezvous_key_valu.Server.Db.Items.{grow_value, db_reallocate_item}

pub roundup_bounds : (n y : ℕ) → 0 < y → (n ≤ roundup n y) × (roundup n y < n + y)
roundup_bounds n y h = grind arith

module _ ⦃x : Platform⦄ where
  -- The length of the new buffer.
  abbrev pub grown_len : ℕ → ℕ
  grown_len new_size = roundup (new_size * 4) x.page_size

  -- The entry with a new buffer of zeroes, named by the call that allocated it, and its region.
  abbrev pub grown : DbRest → Entry → ℕ → ℕ → Entry
  grown s e new_size rkey = record e {
    value = some (record { addr = suc s.calls; len = grown_len new_size; byte = zeroed });
    allocated_size = grown_len new_size;
    mr = some (record { rkey = rkey; addr = suc s.calls; len = grown_len new_size });
    size = new_size % u32;
  }

  pub db_reallocate_item-grows :
      (key : List ℕ) (new_size p rkey : ℕ) (e : Entry) (s : Db)
      → x.keys.find key s.rest.internal_db ≡ some p
      → s.rest.entries p ≡ some e
      → e.allocated_size / 2 ≤ new_size
      → 0 < x.page_size
      → (x.calloc s.rest.calls ≡ true
          → x.ibv_reg_mr (suc s.rest.calls) ≡ some rkey
          → db_reallocate_item key new_size s
            ≡ done (
              tt,
              record s {
                rest = record s.rest {
                  entries = update s.rest.entries p (some (grown s.rest e new_size rkey));
                  calls = suc (suc s.rest.calls);
                };
              },
            ))
        × (x.calloc s.rest.calls ≡ false → db_reallocate_item key new_size s ≡ exited 1)
        × (x.calloc s.rest.calls ≡ true
            → x.ibv_reg_mr (suc s.rest.calls) ≡ none
            → db_reallocate_item key new_size s ≡ exited 1)
        × (new_size * 4 ≤ grown_len new_size)
        × (grown_len new_size < new_size * 4 + x.page_size)
  unfolding db_reallocate_item grow_value
  db_reallocate_item-grows key new_size p rkey e s found at big page =
      let large = le→not-ltb new_size (e.allocated_size / 2) big in
      let room = roundup_bounds (new_size * 4) x.page_size page in
      (
        λ a r. rw (found, at, large, a, r, at),
        λ a. rw (found, at, large, a),
        λ a r. rw (found, at, large, a, r),
        room.0,
        room.1,
      )
