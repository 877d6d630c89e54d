-- ===== src/Handshake/Dial/Answered.antt =====
-- client_exch_dest of client.c, when the answer of the server comes.
use rdma_rendezvous_key_valu.Prelude.{
  ℕ, zero, suc, ◌+◌, ◌-◌, ◌*◌, ◌%◌, ◌/◌, ◌<◌, ◌≡◌, ◌≢◌, refl, ap, subst, ◌∙◌, true, List, [], ◌∷◌,
  ◌++◌, Option, some, length, length-append, All, arith, IsCString, hex_digit, hex_digits,
  print_hex, hex_width, print_hex-4, print_hex-6, length-hex_digits, ◌==◌, Bytes, zeroed,
}
use rdma_rendezvous_key_valu.Prelude.Exec.{done}
use rdma_rendezvous_key_valu.Common.Constants.{exchange_msg_size, max_clients_supported}
use rdma_rendezvous_key_valu.Common.Connection.{KvDest, gid_words, gid_to_wire_gid, htonl}
use rdma_rendezvous_key_valu.Common.Connection.Gid.{wire_gid_to_gid-gid_to_wire_gid}
use rdma_rendezvous_key_valu.Client.Tid.{set_client_id}
use rdma_rendezvous_key_valu.Handshake.{client_message, server_message}
use rdma_rendezvous_key_valu.Handshake.Agree.{
  FitsFormat, SameDest, read_client_message-client_message, read_server_message-server_message,
}
use rdma_rendezvous_key_valu.Handshake.Sockets.{Socket, read_exactly}
use rdma_rendezvous_key_valu.Handshake.Sockets.Pieces.{
  joined, arriving, IsPiece, read_exactly-joined,
}
use rdma_rendezvous_key_valu.Handshake.Dial.{
  answer_size, done_message, text_of, Dialer, client_exch_dest,
}

IsCString-append : (xs ys : List ℕ) → IsCString xs → IsCString ys → IsCString (xs ++ ys)
IsCString-append [] ys v w = w
IsCString-append (x ∷ xs) ys v w = (v.0, IsCString-append xs ys v.1 w)

hex_digit-ne : (d : ℕ) → hex_digit d ≢ 0
unfolding hex_digit
hex_digit-ne d = λ e. ground (arith, e)

hex_digits-IsCString : (n v : ℕ) → IsCString (hex_digits n v)
unfolding hex_digits
hex_digits-IsCString zero v = tt
hex_digits-IsCString (suc n) v =
    IsCString-append (hex_digits n (v / 16)) (hex_digit (v % 16) ∷ [])
      (hex_digits-IsCString n (v / 16)) (hex_digit-ne (v % 16), tt)

print_hex-IsCString : (w v : ℕ) → IsCString (print_hex w v)
unfolding print_hex
print_hex-IsCString w v = hex_digits-IsCString (hex_width (8 - w) w v) v

-- A field and what is behind its colon.
field-IsCString :
    (w v : ℕ) (rest : List ℕ) → IsCString rest → IsCString (print_hex w v ++ (b':' ∷ rest))
field-IsCString w v rest h =
    IsCString-append (print_hex w v) (b':' ∷ rest) (print_hex-IsCString w v)
      (λ e. ground (arith, e), h)

gid_words-IsCString : (rounds i : ℕ) (raw : Bytes) → IsCString (gid_words rounds i raw)
unfolding gid_words
gid_words-IsCString zero i raw = tt
gid_words-IsCString (suc rounds) i raw =
    IsCString-append (print_hex 8 (htonl raw (i * 4))) (gid_words rounds (i + 1) raw)
      (print_hex-IsCString 8 (htonl raw (i * 4))) (gid_words-IsCString rounds (i + 1) raw)

server_message-IsCString : (i : ℕ) (d : KvDest) → IsCString (server_message i d)
unfolding server_message gid_to_wire_gid
server_message-IsCString i d =
    let s4 = gid_to_wire_gid d.gid in
    let s3 = print_hex 6 d.psn ++ (b':' ∷ s4) in
    let s2 = print_hex 6 d.qpn ++ (b':' ∷ s3) in
    let s1 = print_hex 4 d.lid ++ (b':' ∷ s2) in
    field-IsCString 4 (i + 1) s1 (
      field-IsCString 4 d.lid s2
        (field-IsCString 6 d.qpn s3 (field-IsCString 6 d.psn s4 (gid_words-IsCString 4 0 d.gid))))

pub client_message-IsCString : (d : KvDest) → IsCString (client_message d)
unfolding client_message gid_to_wire_gid
client_message-IsCString d =
    let s3 = gid_to_wire_gid d.gid in
    let s2 = print_hex 6 d.psn ++ (b':' ∷ s3) in
    let s1 = print_hex 6 d.qpn ++ (b':' ∷ s2) in
    field-IsCString 4 d.lid s1
      (field-IsCString 6 d.qpn s2 (field-IsCString 6 d.psn s3 (gid_words-IsCString 4 0 d.gid)))

pub text_of-terminated : (t : List ℕ) → IsCString t → text_of (t ++ 0 ∷ []) ≡ some t
unfolding text_of
text_of-terminated [] v = refl
text_of-terminated (c ∷ t) v = ground (arith, v.0, text_of-terminated t v.1)

-- The message of the server has the size of the client's array.
pub length-server_message :
    (i : ℕ) (d : KvDest)
    → i < max_clients_supported
    → FitsFormat d
    → length (server_message i d ++ 0 ∷ []) ≡ answer_size
unfolding server_message
length-server_message i d h v =
    let s4 = gid_to_wire_gid d.gid in
    let s3 = print_hex 6 d.psn ++ (b':' ∷ s4) in
    let s2 = print_hex 6 d.qpn ++ (b':' ∷ s3) in
    let s1 = print_hex 4 d.lid ++ (b':' ∷ s2) in
    omega (
      arith,
      length-append (print_hex 4 (i + 1) ++ (b':' ∷ s1)) (0 ∷ []),
      length-append (print_hex 4 (i + 1)) (b':' ∷ s1),
      length-append (print_hex 4 d.lid) (b':' ∷ s2),
      length-append (print_hex 6 d.qpn) (b':' ∷ s3),
      length-append (print_hex 6 d.psn) (b':' ∷ s4),
      ap length (print_hex-4 (i + 1) (omega arith)).0 ∙ length-hex_digits 4 (i + 1),
      ap length (print_hex-4 d.lid v.lid).0 ∙ length-hex_digits 4 d.lid,
      ap length (print_hex-6 d.qpn v.qpn).0 ∙ length-hex_digits 6 d.qpn,
      ap length (print_hex-6 d.psn v.psn).0 ∙ length-hex_digits 6 d.psn,
      (wire_gid_to_gid-gid_to_wire_gid d.gid zeroed [] v.gid).0,
    )

-- What a client has written and learned, when the server in the slot i has answered it.
pub record IsDialed (i : ℕ) (d d' e : KvDest) (rest : List (Option (List ℕ))) (s t : Dialer)
    : Type 0 where
  pub dest : SameDest d' e
  pub id : t.last_used_tid ≡ set_client_id (i + 1) s.last_used_tid
  pub written :
      t.socket.written ≡ (s.socket.written ++ (client_message d ++ 0 ∷ [])) ++ done_message
  pub pieces : t.socket.pieces ≡ rest
  pub open_end : t.socket.open_end ≡ s.socket.open_end

-- A client whose address fits the format and whose writes are taken whole, and whose allocation
-- succeeds, while the message of a server with its address in the same format, for a client in a
-- slot below 4, arrives in any pieces of a byte or more: client_exch_dest returns that address, the
-- client's id is the number of the message, it has written its own address and "done", and nothing
-- that comes behind the message is read.
pub client_exch_dest-IsDialed :
    (i : ℕ) (d d' : KvDest) (ps : List (List ℕ)) (rest : List (Option (List ℕ))) (s : Dialer)
    → i < max_clients_supported
    → FitsFormat d
    → FitsFormat d'
    → ((n : ℕ) → s.socket.accepts n ≡ true)
    → All IsPiece ps
    → joined ps ≡ server_message i d' ++ 0 ∷ []
    → s.socket.pieces ≡ arriving ps rest
    → (e : KvDest) × (t : Dialer) × (client_exch_dest true d s ≡ done (some e, t))
      × IsDialed i d d' e rest s t
unfolding client_exch_dest
client_exch_dest-IsDialed i d d' ps rest s h v v' taken pieces whole arrives =
    let (fits, _) = read_client_message-client_message d v in
    let (e, read, same) = read_server_message-server_message i d' h v' in
    let msg = client_message d ++ 0 ∷ [] in
    let size : (length msg == exchange_msg_size) ≡ true =
      ground (arith, length-append (client_message d) (0 ∷ []), fits) in
    let u : Socket = record s.socket {
      writes = suc s.socket.writes;
      written = s.socket.written ++ msg;
    } in
    let w : Socket = record u {
      pieces = rest;
      writes = suc (suc s.socket.writes);
      written = u.written ++ done_message;
    } in
    let received : read_exactly answer_size u
        ≡ done (some (server_message i d' ++ 0 ∷ []), record u { pieces = rest }) =
      subst
        (λ (n : ℕ).
          read_exactly n u
          ≡ done (some (server_message i d' ++ 0 ∷ []), record u { pieces = rest }))
        (ap length whole ∙ length-server_message i d' h v')
        (read_exactly-joined ps rest u pieces arrives
          ∙ ap (λ m. done (some m, record u { pieces = rest })) whole) in
    (
      e,
      record { socket = w; last_used_tid = set_client_id (i + 1) s.last_used_tid },
      rw (
        size,
        taken s.socket.writes,
        received,
        taken (suc s.socket.writes),
        text_of-terminated (server_message i d') (server_message-IsCString i d'),
        read,
      ),
      record { dest = same; id = refl; written = refl; pieces = refl; open_end = refl },
    )
