-- ===== src/Common/Connection.antt =====
-- The texts that common/connection.c makes of an address and reads from it. A gid is 16 bytes, and
-- a text a list of bytes without its terminator.
pub mod Gid
use rdma_rendezvous_key_valu.Prelude.{
  ℕ, zero, suc, ◌+◌, ◌*◌, ◌/◌, ◌%◌, ◌^◌, List, [], ◌∷◌, ◌++◌, Option, none, some, Bytes, splice,
  take, drop, print_hex, scan_number, hex_value,
}

-- struct kv_dest of common/constants.h
pub record KvDest : Type 0 where
  pub lid : ℕ
  pub qpn : ℕ
  pub psn : ℕ
  pub gid : Bytes

-- htonl(*(uint32_t *) p), and the bytes of ntohl(v): the number that is stored in network order
unfoldable pub htonl : Bytes → ℕ → ℕ
htonl raw off = ((raw off * 256 + raw (off + 1)) * 256 + raw (off + 2)) * 256 + raw (off + 3)

unfoldable pub ntohl : ℕ → List ℕ
ntohl v = v / 2 ^ 24 % 256 ∷ v / 2 ^ 16 % 256 ∷ v / 2 ^ 8 % 256 ∷ v % 256 ∷ []

-- The loop of gid_to_wire_gid, from the index i.
unfoldable pub gid_words : ℕ → ℕ → Bytes → List ℕ
gid_words zero i raw = []
gid_words (suc rounds) i raw = print_hex 8 (htonl raw (i * 4)) ++ gid_words rounds (i + 1) raw

unfoldable pub gid_to_wire_gid : Bytes → List ℕ
unfolding gid_words
gid_to_wire_gid gid = gid_words 4 0 gid

-- The loop of wire_gid_to_gid, from the index i, with `wgid` from there on. `none` if a word does
-- not start with a digit: what is stored then is indeterminate.
unfoldable pub wire_words : ℕ → ℕ → List ℕ → Bytes → Option Bytes
wire_words zero i wgid gid = some gid
wire_words (suc rounds) i wgid gid = elim (scan_number hex_value 16 (take 8 wgid)) [
  | none ↦ none
  | some (v32, _) ↦ wire_words rounds (i + 1) (drop 8 wgid) (splice gid (i * 4) (ntohl v32))
]

unfoldable pub wire_gid_to_gid : List ℕ → Bytes → Option Bytes
unfolding wire_words
wire_gid_to_gid wgid gid = wire_words 4 0 wgid gid
