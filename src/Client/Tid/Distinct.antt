-- ===== src/Client/Tid/Distinct.antt =====
-- Runs of get_new_tid of client.c, in one client and in two.
use rdma_rendezvous_key_valu.Prelude.{ℕ, zero, suc, ◌+◌, ◌*◌, ◌%◌, ◌<◌, ◌≡◌, ◌≢◌, refl, ap, arith}
use rdma_rendezvous_key_valu.Prelude.Exec.{done, Exec, ◌>>◌}
use rdma_rendezvous_key_valu.Client.Tid.{TidCounter, tid_value, set_client_id, get_new_tid}

-- The counter after n calls of get_new_tid.
pub after_tids : ℕ → TidCounter → TidCounter
after_tids zero t = t
after_tids (suc n) t = record (after_tids n t) {
  last_used_tid = ((after_tids n t).last_used_tid + 1) % 8192;
}

-- The id that call n + 1 returns.
pub nth_tid : ℕ → TidCounter → ℕ
nth_tid n t = tid_value (after_tids (suc n) t)

-- get_new_tid, n times and once more: the id of the last call.
unfoldable pub call_times : ℕ → Exec TidCounter ℕ
call_times zero = get_new_tid
call_times (suc n) = do call_times n; get_new_tid

pub call_times_lem :
    (n : ℕ) (t : TidCounter) → call_times n t ≡ done (nth_tid n t, after_tids (suc n) t)
unfolding call_times get_new_tid nth_tid after_tids
call_times_lem zero t = refl
call_times_lem (suc n) t = rw (call_times_lem n t)

after_tids-counter :
    (n : ℕ) (t : TidCounter)
    → ((after_tids n t).last_used_tid % 8192 ≡ (t.last_used_tid + n) % 8192)
      × ((after_tids n t).client_id ≡ t.client_id)
unfolding after_tids
after_tids-counter zero t = (ap (λ (k : ℕ). k % 8192) (omega arith), refl)
after_tids-counter (suc n) t = let ih = after_tids-counter n t in (omega (arith, ih.0), ih.1)

nth_tid_lem :
    (n : ℕ) (t : TidCounter)
    → nth_tid n t ≡ t.client_id % 8 + 8 * ((t.last_used_tid + n + 1) % 8192)
unfolding nth_tid tid_value
nth_tid_lem n t =
    let h = after_tids-counter (suc n) t in omega (arith, h.0, ap (λ (k : ℕ). k % 8) h.1)

call_times-eq : (n : ℕ) (t u : TidCounter) (a : ℕ) → call_times n t ≡ done (a, u) → a ≡ nth_tid n t
call_times-eq n t u a h = cc (call_times_lem n t)

-- Whatever the number of calls before, get_new_tid returns a uint16_t whose 3 low bits are those of
-- the client's id.
pub call_times_bits :
    (n : ℕ) (t : TidCounter)
    → (a : ℕ) × (u : TidCounter) × (call_times n t ≡ done (a, u))
      × (a < 65536)
      × (a % 8 ≡ t.client_id % 8)
call_times_bits n t = (
  nth_tid n t,
  after_tids (suc n) t,
  call_times_lem n t,
  omega (arith, nth_tid_lem n t),
  omega (arith, nth_tid_lem n t),
)

-- The ids of two calls of one client differ if less than 8192 calls lie between them, and the id of
-- a call comes again 8192 calls later.
pub call_times_period :
    (n k : ℕ) (t u v w : TidCounter) (a b c : ℕ)
    → call_times n t ≡ done (a, u)
    → call_times (n + k) t ≡ done (b, v)
    → call_times (n + 8192) t ≡ done (c, w)
    → 0 < k
    → k < 8192
    → (a ≢ b) × (a ≡ c)
call_times_period n k t u v w a b c ha hb hc positive small =
    let ea = call_times-eq n t u a ha in
    let eb = call_times-eq (n + k) t v b hb in
    let ec = call_times-eq (n + 8192) t w c hc in
    (
      λ e. omega (arith, ea, eb, nth_tid_lem n t, nth_tid_lem (n + k) t, e),
      omega (arith, ea, ec, nth_tid_lem n t, nth_tid_lem (n + 8192) t),
    )

-- Two clients with different ids below 8, as client_exch_dest sets them, never use the same
-- transaction id, however many requests each has made.
pub call_times-ne :
    (m n id id' : ℕ) (s t u v : TidCounter) (a b : ℕ)
    → id < 8
    → id' < 8
    → id ≢ id'
    → call_times m (set_client_id id s) ≡ done (a, u)
    → call_times n (set_client_id id' t) ≡ done (b, v)
    → a ≢ b
unfolding set_client_id
call_times-ne m n id id' s t u v a b h h' differ ha hb e =
    let s' : TidCounter = record s { client_id = id % 8 } in
    let t' : TidCounter = record t { client_id = id' % 8 } in
    omega (
      arith,
      call_times-eq m s' u a ha,
      call_times-eq n t' v b hb,
      nth_tid_lem m s',
      nth_tid_lem n t',
      e,
      differ,
    )
