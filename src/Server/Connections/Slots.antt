-- ===== src/Server/Connections/Slots.antt =====
-- The table of connections of server.c: get_connection and add_new_connection.
use rdma_rendezvous_key_valu.Prelude.{
  Option, Bool-cases, true, false, if◌then◌else◌, ℕ, zero, suc, ◌+◌, ◌≤◌, ◌<◌, ◌≡◌, ◌≢◌, ◌⊎◌, refl,
  inl, inr, none, some, update, arith, ℤ, pos, Option-cases, int_eq, lt→ltb,
}
use rdma_rendezvous_key_valu.Server.Connections.{
  has_qp, find_connection, get_connection, find_free_slot, add_new_connection,
}
use native.Mathlib.Decide.{dec_lt}
use rdma_rendezvous_key_valu.Prelude.Exec.{done, fault}
use rdma_rendezvous_key_valu.Platform.{Platform}
use rdma_rendezvous_key_valu.Common.Constants.{max_clients_supported}
use rdma_rendezvous_key_valu.Server.State.{Connection, Server}

first_used :
    (i j : ℕ) (connections : ℕ → Connection) (q : ℕ)
    → (connections i).qp ≡ some q
    → j ≡ i
    → (connections j).qp ≢ none
first_used i j connections q used e free = cc

-- The first free slot from i on, if there is one before i + rounds.
find_free_slot_lem :
    (rounds i : ℕ) (connections : ℕ → Connection)
    → ((find_free_slot rounds i connections ≡ i + rounds)
        × ((j : ℕ) → i ≤ j → j < i + rounds → (connections j).qp ≢ none))
      ⊎ ((find_free_slot rounds i connections < i + rounds)
          × (i ≤ find_free_slot rounds i connections)
          × ((connections (find_free_slot rounds i connections)).qp ≡ none))
unfolding find_free_slot
find_free_slot_lem zero i connections = inl (omega arith, λ j a b. absurd (omega arith))
find_free_slot_lem (suc rounds) i connections = elim (Option-cases (connections i).qp) [
  | inl free ↦ rw (free, find_free_slot) (inr (omega arith, omega arith, free))
  | inr (q, used) ↦ elim (find_free_slot_lem rounds (i + 1) connections) [
    | inl (full, all) ↦
        rw (used, find_free_slot)
          (inl (
            omega (arith, full),
            λ j a b. elim (dec_lt i j) [
              | yes later ↦ all j (omega arith) (omega arith)
              | no here ↦ λ e. first_used i j connections q used (omega arith) e
            ],
          ))
    | inr (below, above, free) ↦
        rw (used, find_free_slot) (inr (omega (arith, below), omega (arith, above), free))
  ]
]

module _ ⦃x : Platform⦄ where
  -- The state after a new connection has taken the slot i.
  abbrev pub connected : ℕ → ℤ → ℤ → ℕ → Server → Server
  connected qp max_recv_buff curr_recv_buff i s = record s {
    connections = update s.connections i (record (s.connections i) {
      qp = some qp;
      curr_recv_buff =
          (if int_eq (s.connections i).curr_recv_buff (pos 0)
            then curr_recv_buff
            else (s.connections i).curr_recv_buff);
      max_recv_buff = max_recv_buff;
    });
    last_client_id = pos i;
  }

  -- With a free slot, a new connection takes the index of one, below 4, and that index becomes the
  -- client's id; nothing else in the state changes. With all 4 slots in use it writes past the end
  -- of the array, which is undefined.
  pub add_new_connection_lem :
      (qp : ℕ) (max_recv_buff curr_recv_buff : ℤ) (s : Server)
      → ((i : ℕ) × (add_new_connection qp max_recv_buff curr_recv_buff s
            ≡ done (i, connected qp max_recv_buff curr_recv_buff i s))
          × (i < max_clients_supported)
          × ((s.connections i).qp ≡ none))
        ⊎ (((j : ℕ) → j < max_clients_supported → (s.connections j).qp ≢ none)
            × (add_new_connection qp max_recv_buff curr_recv_buff s ≡ fault))
  unfolding add_new_connection
  add_new_connection_lem qp max_recv_buff curr_recv_buff s =
      elim (find_free_slot_lem max_clients_supported 0 s.connections) [
        | inl (full, all) ↦ inr (λ j h. all j (omega arith) h, rw full refl)
        | inr (below, _, free) ↦ inl (
          find_free_slot max_clients_supported 0 s.connections,
          rw
              (lt→ltb (find_free_slot max_clients_supported 0 s.connections) max_clients_supported
                below)
              refl,
          below,
          free,
        )
      ]

-- What the search for a queue pair's number over the indices from i on returns: the first
-- connection with it, or none.
abbrev Found : ℕ → ℕ → (ℕ → Connection) → ℕ → Option ℕ → Type 0
Found rounds i connections qp_num none =
    (j : ℕ) → i ≤ j → j < i + rounds → (connections j).qp ≢ some qp_num
Found rounds i connections qp_num (some c) =
    (i ≤ c)
    × (c < i + rounds)
    × ((connections c).qp ≡ some qp_num)
    × ((j : ℕ) → i ≤ j → j < c → (connections j).qp ≢ some qp_num)

has_qp_lem : (o : Option ℕ) (qp_num : ℕ) → has_qp o qp_num ≡ true → o ≡ some qp_num
has_qp_lem none qp_num h = cc
has_qp_lem (some q) qp_num h = ground (arith, h)

has_qp-ne : (o : Option ℕ) (qp_num : ℕ) → has_qp o qp_num ≡ false → o ≢ some qp_num
has_qp-ne none qp_num h e = cc
has_qp-ne (some q) qp_num h e = ground (arith, h, e)

not_here :
    (i j qp_num : ℕ) (connections : ℕ → Connection)
    → has_qp (connections i).qp qp_num ≡ false
    → j ≡ i
    → (connections j).qp ≢ some qp_num
not_here i j qp_num connections miss here = rw here (has_qp-ne (connections i).qp qp_num miss)

Found-miss :
    (rounds i qp_num : ℕ) (connections : ℕ → Connection) (o : Option ℕ)
    → has_qp (connections i).qp qp_num ≡ false
    → Found rounds (i + 1) connections qp_num o
    → Found (suc rounds) i connections qp_num o
Found-miss rounds i qp_num connections none miss rest = λ j a b. elim (dec_lt i j) [
  | yes later ↦ rest j (omega arith) (omega arith)
  | no here ↦ not_here i j qp_num connections miss (omega arith)
]
Found-miss rounds i qp_num connections (some c) miss rest = (
  omega (arith, rest.0),
  omega (arith, rest.1),
  rest.2,
  λ j a b. elim (dec_lt i j) [
    | yes later ↦ rest.3 j (omega arith) b
    | no here ↦ not_here i j qp_num connections miss (omega arith)
  ],
)

find_connection-Found :
    (rounds i qp_num : ℕ) (connections : ℕ → Connection)
    → Found rounds i connections qp_num (find_connection rounds i connections qp_num)
unfolding find_connection
find_connection-Found zero i qp_num connections = λ j a b. absurd (omega arith)
find_connection-Found (suc rounds) i qp_num connections =
    elim (Bool-cases (has_qp (connections i).qp qp_num)) [
      | inl hit ↦ rw hit (
        omega arith,
        omega arith,
        has_qp_lem (connections i).qp qp_num hit,
        λ j a b. absurd (omega arith),
      )
      | inr miss ↦ rw miss (
          Found-miss rounds i qp_num connections (find_connection rounds (i + 1) connections qp_num)
            miss (find_connection-Found rounds (i + 1) qp_num connections))
    ]

module _ ⦃x : Platform⦄ where
  -- The result of get_connection, and that it changes nothing.
  abbrev pub IsLookup : Server → ℕ → Option ℕ → Type 0
  IsLookup s qp_num = Found max_clients_supported 0 s.connections qp_num

  -- get_connection changes nothing. It returns the first connection with that queue pair number,
  -- below 4, or NULL, and then no connection has that number.
  pub get_connection-IsLookup :
      (qp_num : ℕ) (s : Server)
      → (o : Option ℕ) × (get_connection qp_num s ≡ done (o, s)) × IsLookup s qp_num o
  unfolding get_connection
  get_connection-IsLookup qp_num s = (
    find_connection max_clients_supported 0 s.connections qp_num,
    refl,
    find_connection-Found max_clients_supported 0 qp_num s.connections,
  )
