-- ===== src/Handshake.antt =====
-- The addresses that a client and the server exchange over a socket before they use RDMA: what
-- client_exch_dest of client.c sends and reads, and what handle_received_connection_data and
-- send_address_back_to_client of server.c read and send. A text is a list of bytes without its
-- terminator; `none` says that it does not fit the format, or does not fit the array.
pub mod Agree
pub mod Sockets
pub mod Dial
pub mod Accept
pub mod Listen
use rdma_rendezvous_key_valu.Prelude.{
  ℕ, ◌+◌, List, ◌∷◌, ◌++◌, Option, none, some, if◌then◌else◌, leb, length, take, drop, Bytes,
  zeroed, print_hex, scan_number, scan_char, hex_value,
}
use rdma_rendezvous_key_valu.Common.Connection.{KvDest, gid_to_wire_gid, wire_gid_to_gid}

infixl 5 ◌>>=◌
abbrev pub ◌>>=◌ {ℓ κ} : {A : Type ℓ} {B : Type κ} → Option A → (A → Option B) → Option B
none >>= f = none
some a >>= f = f a

-- "%x:", with what is behind it
unfoldable pub scan_field : List ℕ → Option (ℕ × List ℕ)
scan_field s = do
  (value, rest) ← scan_number hex_value 16 s
  behind ← scan_char b':' rest
  some (value, behind)

-- "%04x:", which reads four characters at most
unfoldable pub scan_field4 : List ℕ → Option (ℕ × List ℕ)
scan_field4 s = do
  (value, rest) ← scan_number hex_value 16 (take 4 s)
  behind ← scan_char b':' (rest ++ drop 4 s)
  some (value, behind)

-- "%s" into `char gid[33]`, and wire_gid_to_gid
unfoldable pub read_gid : List ℕ → Option Bytes
read_gid s = if leb (length s) 32 then wire_gid_to_gid s zeroed else none

unfoldable pub client_message : KvDest → List ℕ
client_message my_dest =
    print_hex 4 my_dest.lid
    ++ (b':'
        ∷ (print_hex 6 my_dest.qpn
            ++ (b':' ∷ (print_hex 6 my_dest.psn ++ (b':' ∷ gid_to_wire_gid my_dest.gid)))))

unfoldable pub read_client_message : List ℕ → Option KvDest
unfolding scan_field read_gid
read_client_message msg = do
  (lid, s1) ← scan_field msg
  (qpn, s2) ← scan_field s1
  (psn, s3) ← scan_field s2
  gid ← read_gid s3
  some (record { lid = lid; qpn = qpn; psn = psn; gid = gid })

-- `client_idx` is last_client_id.
unfoldable pub server_message : ℕ → KvDest → List ℕ
server_message client_idx my_dest =
    print_hex 4 (client_idx + 1)
    ++ (b':'
        ∷ (print_hex 4 my_dest.lid
            ++ (b':'
                ∷ (print_hex 6 my_dest.qpn
                    ++ (b':'
                        ∷ (print_hex 6 my_dest.psn ++ (b':' ∷ gid_to_wire_gid my_dest.gid)))))))

-- The client's number, and the server's address.
unfoldable pub read_server_message : List ℕ → Option (ℕ × KvDest)
unfolding scan_field scan_field4 read_gid
read_server_message msg_in = do
  (t, s1) ← scan_field4 msg_in
  (lid, s2) ← scan_field s1
  (qpn, s3) ← scan_field s2
  (psn, s4) ← scan_field s3
  gid ← read_gid s4
  some (t, record { lid = lid; qpn = qpn; psn = psn; gid = gid })
