-- ===== src/Platform.antt =====
-- What the program calls and does not implement: the macros of external_libs/uthash.h, pthread's
-- read-write locks, calloc and libibverbs. They are an instance argument of the definitions that
-- use them, with what their documentation promises as laws. A call whose result the program cannot
-- foresee takes the number of the calls made before it, so any sequence of results is allowed.
pub mod Instance
use rdma_rendezvous_key_valu.Prelude.{
  ℕ, suc, ◌+◌, ◌-◌, ◌≤◌, ◌<◌, ◌≡◌, ◌≢◌, ◌⊎◌, Bool, List, Option, none, some, if◌then◌else◌, ℤ,
  int_eq, str_eq, false, true, [], ◌∷◌, ◌++◌, elem, remove,
}

-- A hash table of pointers to structs. A key has at most one struct: HASH_ADD wants a new key.
pub record UtHash (K : Type 0) (key_eq : K → K → Bool) : Type 1 where
  pub Table : Type 0
  pub empty : Table
  pub find : K → Table → Option ℕ
  pub add : K → ℕ → Table → Table
  pub del : K → Table → Table
  pub iter : Table → List ℕ
  pub count : Table → ℕ
  pub find-empty : (k : K) → find k empty ≡ none
  pub iter-empty : iter empty ≡ []
  pub find-add :
      (k j : K) (p : ℕ) (t : Table)
      → find k t ≡ none
      → find j (add k p t) ≡ (if key_eq k j then some p else find j t)
  pub find-del : (k j : K) (t : Table) → find j (del k t) ≡ (if key_eq k j then none else find j t)

-- A doubly linked list of external_libs/utlist.h, with the elements that a traversal meets.
-- DL_APPEND wants an element that is in no list, and DL_DELETE one that is in this list.
pub record UtList : Type 1 where
  pub Chain : Type 0
  pub empty : Chain
  pub append : ℕ → Chain → Chain
  pub delete : ℕ → Chain → Chain
  pub to_list : Chain → List ℕ
  pub to_list-empty : to_list empty ≡ []
  pub to_list-append :
      (p : ℕ) (l : Chain) → elem p (to_list l) ≡ false → to_list (append p l) ≡ to_list l ++ p ∷ []
  pub to_list-delete :
      (p : ℕ) (l : Chain) → elem p (to_list l) ≡ true → to_list (delete p l) ≡ remove p (to_list l)

-- pthread_rwlock_t, with the read and write locks that are held on it. A result of 0 is success.
pub record RwLock : Type 1 where
  pub Lock : Type 0
  pub init : Lock
  pub try_wrlock : Lock → ℕ × Lock
  pub try_rdlock : Lock → ℕ × Lock
  pub unlock : Lock → ℕ × Lock
  pub readers : Lock → ℕ
  pub writers : Lock → ℕ
  pub max_readers : ℕ
  pub init_free : (readers init ≡ 0) × (writers init ≡ 0)
  pub try_wrlock_lem :
      (l : Lock)
      → (((try_wrlock l).0 ≡ 0)
          × (readers l ≡ 0)
          × (writers l ≡ 0)
          × (readers (try_wrlock l).1 ≡ 0)
          × (writers (try_wrlock l).1 ≡ 1))
        ⊎ (((try_wrlock l).0 ≢ 0) × ((try_wrlock l).1 ≡ l) × (0 < readers l + writers l))
  pub try_rdlock_lem :
      (l : Lock)
      → (((try_rdlock l).0 ≡ 0)
          × (writers l ≡ 0)
          × (readers (try_rdlock l).1 ≡ suc (readers l))
          × (writers (try_rdlock l).1 ≡ 0))
        ⊎ (((try_rdlock l).0 ≢ 0)
            × ((try_rdlock l).1 ≡ l)
            × ((0 < writers l) ⊎ (max_readers ≤ readers l)))
  pub unlock_lem :
      (l : Lock)
      → 0 < readers l + writers l
      → ((unlock l).0 ≡ 0)
        × (readers (unlock l).1 ≡ readers l - 1)
        × (writers (unlock l).1 ≡ writers l - (1 - readers l))

pub record Platform : Type 1 where
  pub keys : UtHash (List ℕ) str_eq
  pub tids : UtHash ℤ int_eq
  pub chains : UtList
  pub rwlock : RwLock
  pub page_size : ℕ
  -- whether that allocation succeeds
  pub calloc : (calls : ℕ) → Bool
  -- the rkey of that registration
  pub ibv_reg_mr : (calls : ℕ) → Option ℕ
  -- 0 is success
  pub ibv_post_recv : (calls qp_num : ℕ) → ℕ
  pub ibv_post_send : (calls qp_num : ℕ) → ℕ
  pub ibv_destroy_qp : (calls qp_num : ℕ) → ℕ
  -- whether the queue pair is ready to send; `none` if the query fails
  pub ibv_query_qp : (calls qp_num : ℕ) → Option Bool
  -- the number of the new queue pair
  pub ibv_create_qp : (calls : ℕ) → Option ℕ
  -- 0 is success
  pub ibv_modify_qp : (calls qp_num : ℕ) → ℕ
