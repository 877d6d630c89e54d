-- ===== src/Handshake/Sockets/Pieces.antt =====
-- Reading a message that comes in pieces.
use rdma_rendezvous_key_valu.Prelude.{
  ℕ, zero, suc, false, ◌+◌, ◌-◌, ◌≤◌, ◌<◌, ◌≡◌, refl, sym, ap, ◌∙◌, List, [], ◌∷◌, ◌++◌, Option,
  some, length, length-append, le→leb, All, arith, ◌==◌,
}
use mathlib.Core.List.{append_assoc, append-nil}
use rdma_rendezvous_key_valu.Prelude.Exec.{done}
use rdma_rendezvous_key_valu.Handshake.Sockets.{Socket, read_loop, read_exactly}

-- The pieces one behind the other, and as what a socket finds.
abbrev pub joined : List (List ℕ) → List ℕ
joined [] = []
joined (p ∷ ps) = p ++ joined ps

abbrev pub arriving : List (List ℕ) → List (Option (List ℕ)) → List (Option (List ℕ))
arriving [] rest = rest
arriving (p ∷ ps) rest = some p ∷ arriving ps rest

abbrev pub IsPiece : List ℕ → Type 0
IsPiece p = (0 < length p)

-- One round, which reads a whole piece.
read_loop-round :
    (rounds left c : ℕ) (piece : List ℕ) (rest : List (Option (List ℕ))) (msg : List ℕ) (s : Socket)
    → s.pieces ≡ some (c ∷ piece) ∷ rest
    → length (c ∷ piece) ≤ left
    → read_loop (suc rounds) left msg s
      ≡ read_loop rounds (left - length (c ∷ piece)) (msg ++ c ∷ piece) (record s { pieces = rest })
unfolding read_loop
read_loop-round rounds left c piece rest msg s e le =
    let more : (left == 0) ≡ false = ground (arith, le) in
    rw (more, e, le→leb (length (c ∷ piece)) left le)

read_loop-joined :
    (rounds : ℕ) (ps : List (List ℕ)) (rest : List (Option (List ℕ))) (msg : List ℕ) (s : Socket)
    → All IsPiece ps
    → length (joined ps) ≤ rounds
    → s.pieces ≡ arriving ps rest
    → read_loop rounds (length (joined ps)) msg s
      ≡ done (some (msg ++ joined ps), record s { pieces = rest })
unfolding read_loop
read_loop-joined zero [] rest msg s v le e =
    ap (λ q. done (some msg, record s { pieces = q })) e
    ∙ ap (λ m. done (some m, record s { pieces = rest })) (sym (append-nil msg))
read_loop-joined (suc rounds) [] rest msg s v le e =
    ap (λ q. done (some msg, record s { pieces = q })) e
    ∙ ap (λ m. done (some m, record s { pieces = rest })) (sym (append-nil msg))
read_loop-joined zero (p ∷ ps) rest msg s v le e =
    absurd (omega (arith, v.0, length-append p (joined ps)))
read_loop-joined (suc rounds) ([] ∷ ps) rest msg s v le e = absurd (omega (arith, v.0))
read_loop-joined (suc rounds) ((c ∷ p) ∷ ps) rest msg s v le e =
    let left = length (joined ((c ∷ p) ∷ ps)) in
    let whole : left ≡ length (c ∷ p) + length (joined ps) = length-append (c ∷ p) (joined ps) in
    let behind : left - length (c ∷ p) ≡ length (joined ps) = omega (arith, whole) in
    read_loop-round rounds left c p (arriving ps rest) msg s e (omega (arith, whole))
    ∙ ap (λ (n : ℕ). read_loop rounds n (msg ++ c ∷ p) (record s { pieces = arriving ps rest }))
        behind
    ∙ read_loop-joined rounds ps rest (msg ++ c ∷ p) (record s { pieces = arriving ps rest }) v.1
        (omega (arith, whole, le)) refl
    ∙ ap (λ m. done (some m, record s { pieces = rest })) (append_assoc msg (c ∷ p) (joined ps))

-- However a message is cut into pieces of a byte or more, as many bytes as it has are read as this
-- message, and what comes behind it is left.
pub read_exactly-joined :
    (ps : List (List ℕ)) (rest : List (Option (List ℕ))) (s : Socket)
    → All IsPiece ps
    → s.pieces ≡ arriving ps rest
    → read_exactly (length (joined ps)) s ≡ done (some (joined ps), record s { pieces = rest })
unfolding read_exactly
read_exactly-joined ps rest s v e =
    read_loop-joined (length (joined ps)) ps rest [] s v (omega arith) e
