-- ===== src/Server/Db.antt =====
-- server_internals/db.h and db.c: the entries, their locks, and the table of entries by key. An
-- allocation is named by the number of the call that made it, so that no two have one address.
-- `static` variables are the state; the pool of preallocated entries is that of Server/Pool.antt.
pub mod Items
pub mod RwLocks
pub mod Locks
pub mod Insert
pub mod Reach
pub mod Resize
pub mod Fresh
pub mod Map
pub mod Entry
use rdma_rendezvous_key_valu.Prelude.{
  ℕ, zero, suc, ◌+◌, ◌-◌, ◌*◌, ◌/◌, ◌%◌, ◌^◌, Bool, true, false, not, ◌&&◌, List, [], ◌∷◌, Option,
  none, some, ltb, leb, ◌==◌, if◌then◌else◌, update, length, take, Bytes, zeroed, splice,
  strncpy_bytes,
}
use rdma_rendezvous_key_valu.Prelude.Exec.{
  Outcome, done, exited, fault, Exec, pure, exit, crash, gets, modify, deref, assert, zoom, ◌>>=◌,
  ◌>>◌,
}
use rdma_rendezvous_key_valu.Platform.{Platform}
use rdma_rendezvous_key_valu.Common.Constants.{client_request_payload_len}
use rdma_rendezvous_key_valu.Server.Pool.{Pool, Pooled, no_pool, in_rest, get_empty_buffer}

abbrev pub u32 : ℕ
u32 = 2 ^ 32

-- roundup of sys/param.h
abbrev pub roundup : ℕ → ℕ → ℕ
roundup x y = (x + (y - 1)) / y * y

-- An allocated buffer: its address, its length and its bytes.
pub record Buffer : Type 0 where
  pub addr : ℕ
  pub len : ℕ
  pub byte : Bytes

-- struct ibv_mr, as far as the program reads it, with the length that was registered
pub record Mr : Type 0 where
  pub rkey : ℕ
  pub addr : ℕ
  pub len : ℕ

-- db_entry_t; a null pointer is `none`, and `key` is the string in its buffer
pub record DbEntry (Lock : Type 0) : Type 0 where
  pub key : Option (List ℕ)
  pub value : Option Buffer
  pub keylen : ℕ
  pub size : ℕ
  pub allocated_size : ℕ
  pub mr : Option Mr
  pub lock : Lock
  pub num_readers : ℕ
  pub num_writers : ℕ

-- internal_db, the heap of entries, and the number of calls of the platform so far
pub record DbState (Table Lock : Type 0) : Type 0 where
  pub internal_db : Table
  pub entries : ℕ → Option (DbEntry Lock)
  pub calls : ℕ

module _ ⦃x : Platform⦄ where
  abbrev pub Entry : Type 0
  Entry = DbEntry x.rwlock.Lock

  abbrev pub DbRest : Type 0
  DbRest = DbState x.keys.Table x.rwlock.Lock

  abbrev pub Db : Type 0
  Db = Pooled DbRest

  abbrev pub max_allocated_entries : ℕ
  max_allocated_entries = 1000

  -- The static variables before db_init.
  abbrev pub no_db : Db
  no_db = record {
    rest = record { internal_db = x.keys.empty; entries = λ p. none; calls = 0 };
    pool = no_pool;
  }

  abbrev pub allocated_size_of_entry : ℕ
  allocated_size_of_entry = roundup x.page_size client_request_payload_len

  -- calloc(1, size): the address, or NULL
  unfoldable pub calloc : Exec DbRest (Option ℕ)
  calloc s =
      done (if x.calloc s.calls then some (suc s.calls) else none, record s { calls = suc s.calls })

  unfoldable pub calloc_buffer : ℕ → Exec DbRest (Option Buffer)
  unfolding calloc
  calloc_buffer size = do
    addr ← calloc
    pure
        (elim addr [ none ↦ none | some a ↦ some (record { addr = a; len = size; byte = zeroed }) ])

  unfoldable pub ibv_reg_mr : Option Buffer → ℕ → Exec DbRest (Option Mr)
  ibv_reg_mr buffer len s =
      let addr : ℕ = elim buffer [ none ↦ 0 | some b ↦ b.addr ] in
      done (
        elim (x.ibv_reg_mr s.calls) [
          | none ↦ none
          | some rkey ↦ some (record { rkey = rkey; addr = addr; len = len })
        ],
        record s { calls = suc s.calls },
      )

  -- *p, and *p = e
  unfoldable pub load : ℕ → Exec DbRest Entry
  load p s = deref (s.entries p) s

  unfoldable pub store : ℕ → Entry → Exec DbRest (Unit {0})
  store p e = modify λ s. record s { entries = update s.entries p (some e) }

  -- The body of the loop of reallocate_entries. Only the struct's own calloc is tested.
  unfoldable pub new_db_entry : Exec DbRest ℕ
  unfolding calloc calloc_buffer ibv_reg_mr store
  new_db_entry = do
    curr_entry ← calloc
    elim curr_entry [
      | none ↦ exit 1
      | some p ↦ do
        key ← calloc
        value ← calloc_buffer (2 * allocated_size_of_entry)
        mr ← ibv_reg_mr value (2 * allocated_size_of_entry)
        store p (record {
          key = elim key [ none ↦ none | some a ↦ some [] ];
          value = value;
          keylen = 0;
          size = 0;
          allocated_size = 2 * allocated_size_of_entry;
          mr = mr;
          lock = x.rwlock.init;
          num_readers = 0;
          num_writers = 0;
        })
        pure p
    ]

  calloc_array : Exec DbRest Bool
  unfolding calloc
  calloc_array = do a ← calloc; pure (elim a [ none ↦ false | some p ↦ true ])

  unfoldable pub db_empty_buffer : Exec Db (Option ℕ)
  unfolding calloc_array
  db_empty_buffer = get_empty_buffer max_allocated_entries calloc_array new_db_entry
