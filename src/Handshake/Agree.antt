-- ===== src/Handshake/Agree.antt =====
-- That the two sides of the handshake agree.
use rdma_rendezvous_key_valu.Prelude.{
  ℕ, suc, ◌+◌, ◌^◌, ◌<◌, ◌≡◌, ◌≢◌, refl, ap, sym, ◌∙◌, List, [], ◌∷◌, ◌++◌, none, some, le→leb,
  length, length-append, take, drop, Bytes, zeroed, arith, print_hex, hex_digits, print_hex-4,
  print_hex-6, length-hex_digits, scan_number-hex_digits, scan_char, hex_value, subst, take-append,
  drop-append, read_back,
}
use mathlib.Core.List.{append-nil}
use rdma_rendezvous_key_valu.Prelude.Exec.{done}
use rdma_rendezvous_key_valu.Common.Constants.{exchange_msg_size, max_clients_supported}
use rdma_rendezvous_key_valu.Common.Connection.{KvDest, gid_to_wire_gid, wire_gid_to_gid}
use rdma_rendezvous_key_valu.Common.Connection.Gid.{AreBytes, wire_gid_to_gid-gid_to_wire_gid}
use rdma_rendezvous_key_valu.Client.Tid.{TidCounter, set_client_id}
use rdma_rendezvous_key_valu.Client.Tid.Distinct.{call_times, call_times-ne}
use rdma_rendezvous_key_valu.Handshake.{
  scan_field, scan_field4, read_gid, client_message, read_client_message, server_message,
  read_server_message,
}

colon : hex_value b':' ≡ none
unfolding hex_value
colon = refl

-- An address whose fields fit the widths that the two formats give them.
pub record FitsFormat (d : KvDest) : Type 0 where
  pub lid : d.lid < 2 ^ 16
  pub qpn : d.qpn < 2 ^ 24
  pub psn : d.psn < 2 ^ 24
  pub gid : AreBytes d.gid

-- A field of n digits and its colon.
scan_field-hex_digits :
    (n v : ℕ) (text rest : List ℕ)
    → text ≡ hex_digits (suc n) v
    → read_back (suc n) 0 v ≡ v
    → scan_field (text ++ (b':' ∷ rest)) ≡ some (v, rest)
unfolding scan_field scan_char
scan_field-hex_digits n v text rest e back =
    rw (e, scan_number-hex_digits n v (b':' ∷ rest) back colon)

scan_field4-print_hex :
    (v : ℕ) (rest : List ℕ)
    → v < 2 ^ 16
    → scan_field4 (print_hex 4 v ++ (b':' ∷ rest)) ≡ some (v, rest)
unfolding scan_field4 scan_char
scan_field4-print_hex v rest h =
    let (e, back) = print_hex-4 v h in
    let cut : take 4 (hex_digits 4 v ++ (b':' ∷ rest)) ≡ hex_digits 4 v ++ [] =
      subst (λ (n : ℕ). take n (hex_digits 4 v ++ (b':' ∷ rest)) ≡ hex_digits 4 v)
        (length-hex_digits 4 v) (take-append (hex_digits 4 v) (b':' ∷ rest))
      ∙ sym (append-nil (hex_digits 4 v)) in
    let left : drop 4 (hex_digits 4 v ++ (b':' ∷ rest)) ≡ b':' ∷ rest =
      subst (λ (n : ℕ). drop n (hex_digits 4 v ++ (b':' ∷ rest)) ≡ b':' ∷ rest)
        (length-hex_digits 4 v) (drop-append (hex_digits 4 v) (b':' ∷ rest)) in
    rw (e, cut, left, scan_number-hex_digits 3 v [] back tt)

read_gid-gid_to_wire_gid :
    (gid : Bytes)
    → AreBytes gid
    → (m : Bytes) × (read_gid (gid_to_wire_gid gid) ≡ some m) × ((k : ℕ) → k < 16 → m k ≡ gid k)
unfolding read_gid
read_gid-gid_to_wire_gid gid v =
    let (len, (m, run, same)) = wire_gid_to_gid-gid_to_wire_gid gid zeroed [] v in
    (
      m,
      rw (le→leb (length (gid_to_wire_gid gid)) 32 (omega (arith, len))) (
          ap (λ (s : List ℕ). wire_gid_to_gid s zeroed) (sym (append-nil (gid_to_wire_gid gid)))
          ∙ run),
      same,
    )

-- The same address, as far as its 16 bytes of gid go.
abbrev pub SameDest : KvDest → KvDest → Type 0
SameDest d e =
    (e.lid ≡ d.lid) × (e.qpn ≡ d.qpn) × (e.psn ≡ d.psn) × ((k : ℕ) → k < 16 → e.gid k ≡ d.gid k)

-- The message of a client whose address fits the format takes EXCHANGE_MSG_SIZE bytes with its
-- terminator, and the server reads the client's address from it.
pub read_client_message-client_message :
    (d : KvDest)
    → FitsFormat d
    → (length (client_message d) + 1 ≡ exchange_msg_size)
      × ((e : KvDest) × (read_client_message (client_message d) ≡ some e) × SameDest d e)
unfolding read_client_message client_message
read_client_message-client_message d v =
    let (lid, lid_back) = print_hex-4 d.lid v.lid in
    let (qpn, qpn_back) = print_hex-6 d.qpn v.qpn in
    let (psn, psn_back) = print_hex-6 d.psn v.psn in
    let (gid, read, same) = read_gid-gid_to_wire_gid d.gid v.gid in
    let s3 = gid_to_wire_gid d.gid in
    let s2 = print_hex 6 d.psn ++ (b':' ∷ s3) in
    let s1 = print_hex 6 d.qpn ++ (b':' ∷ s2) in
    (
      omega (
        arith,
        length-append (print_hex 4 d.lid) (b':' ∷ s1),
        length-append (print_hex 6 d.qpn) (b':' ∷ s2),
        length-append (print_hex 6 d.psn) (b':' ∷ s3),
        ap length lid ∙ length-hex_digits 4 d.lid,
        ap length qpn ∙ length-hex_digits 6 d.qpn,
        ap length psn ∙ length-hex_digits 6 d.psn,
        (wire_gid_to_gid-gid_to_wire_gid d.gid zeroed [] v.gid).0,
      ),
      (
        record { lid = d.lid; qpn = d.qpn; psn = d.psn; gid = gid },
        rw (
          scan_field-hex_digits 3 d.lid (print_hex 4 d.lid) s1 lid lid_back,
          scan_field-hex_digits 5 d.qpn (print_hex 6 d.qpn) s2 qpn qpn_back,
          scan_field-hex_digits 5 d.psn (print_hex 6 d.psn) s3 psn psn_back,
          read,
        ),
        (refl, refl, refl, same),
      ),
    )

-- From the server's message to the client in a slot below 4 the client reads its number, which is
-- one more than the slot, and the server's address, if that fits the format.
pub read_server_message-server_message :
    (client_idx : ℕ) (d : KvDest)
    → client_idx < max_clients_supported
    → FitsFormat d
    → (e : KvDest) × (read_server_message (server_message client_idx d) ≡ some (client_idx + 1, e))
      × SameDest d e
unfolding read_server_message server_message
read_server_message-server_message client_idx d h v =
    let (lid, lid_back) = print_hex-4 d.lid v.lid in
    let (qpn, qpn_back) = print_hex-6 d.qpn v.qpn in
    let (psn, psn_back) = print_hex-6 d.psn v.psn in
    let (gid, read, same) = read_gid-gid_to_wire_gid d.gid v.gid in
    let s4 = gid_to_wire_gid d.gid in
    let s3 = print_hex 6 d.psn ++ (b':' ∷ s4) in
    let s2 = print_hex 6 d.qpn ++ (b':' ∷ s3) in
    let s1 = print_hex 4 d.lid ++ (b':' ∷ s2) in
    (
      record { lid = d.lid; qpn = d.qpn; psn = d.psn; gid = gid },
      rw (
        scan_field4-print_hex (client_idx + 1) s1 (omega arith),
        scan_field-hex_digits 3 d.lid (print_hex 4 d.lid) s2 lid lid_back,
        scan_field-hex_digits 5 d.qpn (print_hex 6 d.qpn) s3 qpn qpn_back,
        scan_field-hex_digits 5 d.psn (print_hex 6 d.psn) s4 psn psn_back,
        read,
      ),
      (refl, refl, refl, same),
    )

-- Two clients in different slots, which take the number of the server's message as their id, never
-- use the same transaction id, however many requests each has made.
pub connected_tids-ne :
    (i j : ℕ) (d d' e e' : KvDest) (t t' m n : ℕ) (s s' u u' : TidCounter) (a b : ℕ)
    → i < max_clients_supported
    → j < max_clients_supported
    → i ≢ j
    → FitsFormat d
    → FitsFormat d'
    → read_server_message (server_message i d) ≡ some (t, e)
    → read_server_message (server_message j d') ≡ some (t', e')
    → call_times m (set_client_id t s) ≡ done (a, u)
    → call_times n (set_client_id t' s') ≡ done (b, u')
    → a ≢ b
connected_tids-ne i j d d' e e' t t' m n s s' u u' a b hi hj ne v v' read read' ha hb =
    let (_, sent, _) = read_server_message-server_message i d hi v in
    let (_, sent', _) = read_server_message-server_message j d' hj v' in
    let number : t ≡ i + 1 = cc in
    let number' : t' ≡ j + 1 = cc in
    call_times-ne m n t t' s s' u u' a b (omega arith) (omega arith) (λ same. ne (omega arith)) ha
      hb
