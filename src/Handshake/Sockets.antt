-- ===== src/Handshake/Sockets.antt =====
-- A connected socket, and the loops of client_exch_dest and send_address_back_to_client that read
-- until they have as many bytes as they want. The peer's bytes come in pieces; a read that finds
-- none waits for ever.
pub mod Pieces
use rdma_rendezvous_key_valu.Prelude.{
  ℕ, zero, suc, ◌+◌, ◌-◌, Bool, true, List, [], ◌∷◌, ◌++◌, Option, none, some, if◌then◌else◌, leb,
  ◌==◌, length, take, drop,
}
use rdma_rendezvous_key_valu.Prelude.Exec.{Outcome, done, stuck, Exec, pure, modify, ◌>>=◌, ◌>>◌}

-- What each read will find (`none` is an error, and an empty piece the end), whether the write of
-- that number is taken whole, how many there have been, and what they have written.
pub record Socket : Type 0 where
  pub pieces : List (Option (List ℕ))
  pub accepts : ℕ → Bool
  pub writes : ℕ
  pub written : List ℕ
  pub open_end : Bool

-- read(sockfd, buf, n)
abbrev pub read_piece : List (Option (List ℕ)) → ℕ → Exec Socket (Option (List ℕ))
read_piece [] n s = stuck
read_piece (none ∷ rest) n s = done (none, record s { pieces = rest })
read_piece (some piece ∷ rest) n s =
    if leb (length piece) n
    then done (some piece, record s { pieces = rest })
    else done (some (take n piece), record s { pieces = some (drop n piece) ∷ rest })

-- write(sockfd, bytes, length bytes), and whether it is taken whole
abbrev pub write_bytes : List ℕ → Exec Socket Bool
write_bytes bytes s = done (
  s.accepts s.writes,
  record s {
    writes = suc s.writes;
    written = (if s.accepts s.writes then s.written ++ bytes else s.written);
  },
)

abbrev pub close : Exec Socket (Unit {0})
close = modify λ s. record s { open_end = Bool.false }

-- The `while` loop, with `left` bytes to read; `none` is its `return` on an error or at the end.
-- Each round reads a byte at least, so that as many rounds as bytes are enough.
unfoldable pub read_loop : (rounds left : ℕ) → List ℕ → Exec Socket (Option (List ℕ))
read_loop zero left msg = if left == 0 then pure (some msg) else (λ s. stuck)
read_loop (suc rounds) left msg = if left == 0 then pure (some msg) else do
  j ← (λ s. read_piece s.pieces left s)
  elim j [
    | none ↦ pure none
    | some [] ↦ pure none
    | some (c ∷ piece) ↦ read_loop rounds (left - length (c ∷ piece)) (msg ++ c ∷ piece)
  ]

unfoldable pub read_exactly : ℕ → Exec Socket (Option (List ℕ))
unfolding read_loop
read_exactly n = read_loop n n []
