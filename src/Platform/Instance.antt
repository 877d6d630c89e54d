-- ===== src/Platform/Instance.antt =====
-- A platform that meets the laws: tables as association lists, locks as two counters, and calls
-- that succeed.
use rdma_rendezvous_key_valu.Prelude.{
  ℕ, suc, ◌+◌, ◌-◌, ◌≤◌, ◌<◌, ◌≡◌, ◌≢◌, ◌⊎◌, refl, inl, inr, Bool, true, false, List, [], ◌∷◌,
  Option, none, some, if◌then◌else◌, int_eq, int_eq_sound, int_eq_refl, str_eq, str_eq_sound,
  str_eq_refl, arith, ◌==◌, length, leb, Bool-cases, ◌++◌, remove,
}
use rdma_rendezvous_key_valu.Platform.{UtHash, UtList, RwLock, Platform}

module _ {K : Type 0} (key_eq : K → K → Bool) where
  abbrev pub assoc_find : K → List (K × ℕ) → Option ℕ
  assoc_find k [] = none
  assoc_find k ((j, p) ∷ t) = if key_eq j k then some p else assoc_find k t

  abbrev pub assoc_del : K → List (K × ℕ) → List (K × ℕ)
  assoc_del k [] = []
  assoc_del k ((j, p) ∷ t) = let rest = assoc_del k t in if key_eq k j then rest else (j, p) ∷ rest

  abbrev pub assoc_iter : List (K × ℕ) → List ℕ
  assoc_iter [] = []
  assoc_iter ((k, p) ∷ t) = p ∷ assoc_iter t

  module _ (sound : (a b : K) → key_eq a b ≡ true → a ≡ b)
      (same : (a : K) → key_eq a a ≡ true) where
    find-del_miss :
        (k j : K) (t : List (K × ℕ)) → key_eq k j ≡ true → assoc_find j (assoc_del k t) ≡ none
    find-del_miss k j [] e = refl
    find-del_miss k j ((i, p) ∷ t) e = elim (Bool-cases (key_eq k i)) [
      | inl hit ↦ rw hit (find-del_miss k j t e)
      | inr miss ↦ elim (Bool-cases (key_eq i j)) [
        | inl at ↦ cc (sound i j at)
        | inr away ↦ rw (miss, away) (find-del_miss k j t e)
      ]
    ]

    find-del_hit :
        (k j : K) (t : List (K × ℕ))
        → key_eq k j ≡ false
        → assoc_find j (assoc_del k t) ≡ assoc_find j t
    find-del_hit k j [] e = refl
    find-del_hit k j ((i, p) ∷ t) e = elim (Bool-cases (key_eq k i)) [
      | inl hit ↦ elim (Bool-cases (key_eq i j)) [
        | inl at ↦ cc (sound i j at)
        | inr away ↦ rw (hit, away) (find-del_hit k j t e)
      ]
      | inr miss ↦ elim (Bool-cases (key_eq i j)) [
        | inl at ↦ rw (miss, at)
        | inr away ↦ rw (miss, away) (find-del_hit k j t e)
      ]
    ]

    pub assoc_find-del :
        (k j : K) (t : List (K × ℕ))
        → assoc_find j (assoc_del k t) ≡ (if key_eq k j then none else assoc_find j t)
    assoc_find-del k j t = elim (Bool-cases (key_eq k j)) [
      | inl e ↦ rw e (find-del_miss k j t e)
      | inr e ↦ rw e (find-del_hit k j t e)
    ]

    abbrev pub assoc_table : UtHash K key_eq
    assoc_table = record {
      Table = List (K × ℕ);
      empty = [];
      find = assoc_find;
      add = λ k p t. (k, p) ∷ t;
      del = assoc_del;
      iter = assoc_iter;
      count = length;
      find-empty = λ k. refl;
      iter-empty = refl;
      find-add = λ k j p t h. refl;
      find-del = assoc_find-del;
    }

abbrev pub list_chain : UtList
list_chain = record {
  Chain = List ℕ;
  empty = [];
  append = λ p l. l ++ p ∷ [];
  delete = remove;
  to_list = λ l. l;
  to_list-empty = refl;
  to_list-append = λ p l h. refl;
  to_list-delete = λ p l h. refl;
}

-- Read locks and write locks that are held.
abbrev pub Counts : Type 0
Counts = ℕ × ℕ

abbrev wr : Counts → ℕ × Counts
wr (r, w) = if r + w == 0 then (0, (0, 1)) else (16, (r, w))

abbrev rd : Counts → ℕ × Counts
rd (r, w) = if (if w == 0 then leb 1000 r else true) then (16, (r, w)) else (0, (suc r, w))

abbrev un : Counts → ℕ × Counts
un (r, w) = (0, (r - 1, w - (1 - r)))

pub wr_lem :
    (l : Counts)
    → (((wr l).0 ≡ 0) × (l.0 ≡ 0) × (l.1 ≡ 0) × ((wr l).1.0 ≡ 0) × ((wr l).1.1 ≡ 1))
      ⊎ (((wr l).0 ≢ 0) × ((wr l).1 ≡ l) × (0 < l.0 + l.1))
wr_lem l = ground arith

pub rd_lem :
    (l : Counts)
    → (((rd l).0 ≡ 0) × (l.1 ≡ 0) × ((rd l).1.0 ≡ suc l.0) × ((rd l).1.1 ≡ 0))
      ⊎ (((rd l).0 ≢ 0) × ((rd l).1 ≡ l) × ((0 < l.1) ⊎ (1000 ≤ l.0)))
rd_lem l = ground arith

pub un_lem :
    (l : Counts)
    → 0 < l.0 + l.1
    → ((un l).0 ≡ 0) × ((un l).1.0 ≡ l.0 - 1) × ((un l).1.1 ≡ l.1 - (1 - l.0))
un_lem l h = (refl, refl, refl)

abbrev pub counting_locks : RwLock
counting_locks = record {
  Lock = Counts;
  init = (0, 0);
  try_wrlock = wr;
  try_rdlock = rd;
  unlock = un;
  readers = λ l. l.0;
  writers = λ l. l.1;
  max_readers = 1000;
  init_free = (refl, refl);
  try_wrlock_lem = wr_lem;
  try_rdlock_lem = rd_lem;
  unlock_lem = un_lem;
}

instance abbrev pub test_platform : Platform
test_platform = record {
  keys = assoc_table str_eq str_eq_sound str_eq_refl;
  tids = assoc_table int_eq int_eq_sound int_eq_refl;
  chains = list_chain;
  rwlock = counting_locks;
  page_size = 4096;
  calloc = λ calls. true;
  ibv_reg_mr = λ calls. some (100 + calls);
  ibv_post_recv = λ calls qp_num. 0;
  ibv_post_send = λ calls qp_num. 0;
  ibv_destroy_qp = λ calls qp_num. 0;
  ibv_query_qp = λ calls qp_num. some true;
  ibv_create_qp = λ calls. some (40 + calls);
  ibv_modify_qp = λ calls qp_num. 0;
}
