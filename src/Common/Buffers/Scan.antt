-- ===== src/Common/Buffers/Scan.antt =====
-- The loop of get_free_recv_idx and get_free_send_idx of common/buffers_management.c.
use rdma_rendezvous_key_valu.Prelude.{
  ℕ, zero, suc, ◌+◌, ◌-◌, ◌%◌, ◌≤◌, ◌<◌, ◌==◌, ◌≡◌, ◌⊎◌, inl, inr, Bool, true, false, Option, none,
  some, if◌then◌else◌, ltb, arith, Bool-cases, ◌≢◌, ==_iff,
}
use rdma_rendezvous_key_valu.Common.Buffers.{scan}

-- The indices that a scan from `last` has left behind at `curr`.
abbrev Passed : ℕ → ℕ → ℕ → Type 0
Passed last curr i =
    ((last ≤ i) × (i < curr)) ⊎ ((curr < last) × (last ≤ i)) ⊎ ((curr < last) × (i < curr))

-- The rounds that are left before the scan is back at `last`.
abbrev rounds_left : ℕ → ℕ → ℕ → ℕ
rounds_left n last curr = if ltb curr last then last - curr else n - curr + last

-- What a scan of n flags promises: a free index, or none if no index is free.
abbrev pub FindsFree : (ℕ → Bool) → ℕ → Option (Option ℕ) → Type 0
FindsFree in_use n none = ⊥
FindsFree in_use n (some none) = (i : ℕ) → i < n → in_use i ≡ true
FindsFree in_use n (some (some i)) = (i < n) × (in_use i ≡ false)

next_idx_cases :
    (n c : ℕ) → c < n → ((c + 1 < n) × ((c + 1) % n ≡ c + 1)) ⊎ ((c + 1 ≡ n) × ((c + 1) % n ≡ 0))
next_idx_cases n c h = grind arith

-- One step of the scan passes its own index and no other.
Passed-next :
    (n last c i : ℕ)
    → last < n
    → c < n
    → i < n
    → Passed last ((c + 1) % n) i
    → (i ≡ c) ⊎ Passed last c i
Passed-next n last c i hl hc hi p = elim (next_idx_cases n c hc) [
  | inl (inside, e) ↦ ground (arith, rw e at p)
  | inr (wraps, e) ↦ ground (arith, rw e at p)
]

-- Back at its start, the scan has passed every index.
Passed-all : (n last c i : ℕ) → c < n → i < n → (c + 1) % n ≡ last → (i ≡ c) ⊎ Passed last c i
Passed-all n last c i hc hi back = ground (arith, next_idx_cases n c hc)

rounds_left-next :
    (n last c fuel : ℕ)
    → last < n
    → c < n
    → (c + 1) % n ≢ last
    → rounds_left n last c ≤ suc fuel
    → rounds_left n last ((c + 1) % n) ≤ fuel
rounds_left-next n last c fuel hl hc on enough = elim (next_idx_cases n c hc) [
  | inl (inside, e) ↦ rw e (ground arith)
  | inr (wraps, e) ↦ rw e (ground arith)
]

module _ (in_use : ℕ → Bool) (n last : ℕ) (hl : last < n) where
  all_in_use :
      (c i : ℕ)
      → in_use c ≡ true
      → ((i : ℕ) → i < n → Passed last c i → in_use i ≡ true)
      → i < n
      → (i ≡ c) ⊎ Passed last c i
      → in_use i ≡ true
  all_in_use c i used before hi (inl e) = rw e used
  all_in_use c i used before hi (inr p) = before i hi p

  next-lt : (c : ℕ) → c < n → (c + 1) % n < n
  next-lt c hc = ground (arith, next_idx_cases n c hc)

  -- From any index on the way round, the fuel for the rounds left is enough.
  scan-FindsFree_from :
      (fuel c : ℕ)
      → c < n
      → rounds_left n last c ≤ fuel
      → ((i : ℕ) → i < n → Passed last c i → in_use i ≡ true)
      → FindsFree in_use n (scan fuel in_use n last c)
  unfolding scan
  scan-FindsFree_from zero c hc enough before = absurd (ground arith)
  scan-FindsFree_from (suc fuel) c hc enough before = elim (Bool-cases (in_use c)) [
    | inr unused ↦ rw unused (hc, unused)
    | inl used ↦ elim (Bool-cases ((c + 1) % n == last)) [
      | inl back ↦
          rw (used, back)
            λ i hi.
              all_in_use c i used before hi (Passed-all n last c i hc hi ((==_iff _ last).0 back))
      | inr on ↦
          rw (used, on)
            (scan-FindsFree_from fuel ((c + 1) % n) (next-lt c hc)
              (rounds_left-next n last c fuel hl hc (λ e. ground (arith, e)) enough)
              (λ i hi p. all_in_use c i used before hi (Passed-next n last c i hl hc hi p)))
    ]
  ]

  -- A scan of n flags with fuel n, from a start below n, does not run out of fuel. It finds an
  -- index below n whose flag is clear, or no flag is clear.
  pub scan-FindsFree : FindsFree in_use n (scan n in_use n last last)
  scan-FindsFree = scan-FindsFree_from n last hl (ground arith) (λ i hi p. absurd (ground arith))
