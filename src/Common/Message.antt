-- ===== src/Common/Message.antt =====
-- The headers and messages of common/constants.h. A message buffer of BUFFER_SIZE bytes is its
-- header struct and the bytes behind it; the two structs have 24 and 40 bytes.
use rdma_rendezvous_key_valu.Prelude.{ℕ, Bytes, zeroed}
use rdma_rendezvous_key_valu.Common.Constants.{
  Opcode, zero_opcode, ResponseKind, zero_response, WrType,
}

-- client_request_headers_t
pub record ClientHeaders : Type 0 where
  pub opcode : Opcode
  pub tid : ℕ
  pub keylen : ℕ
  pub buflen : ℕ

-- rkey_info_t
pub record RkeyInfo : Type 0 where
  pub rkey : ℕ
  pub raddr : ℕ

-- server_response_headers_t
pub record ServerHeaders : Type 0 where
  pub response : ResponseKind
  pub tid : ℕ
  pub keylen : ℕ
  pub buflen : ℕ
  pub rkey_info : RkeyInfo

-- client_request_t and server_response_t: the header, and the bytes at `buffer`.
pub record Message (H : Type 0) : Type 0 where
  pub headers : H
  pub buffer : Bytes

-- wr_id_info: the buffer's index or the transaction id, and what was posted.
pub record WrIdInfo : Type 0 where
  pub wr_id : ℕ
  pub wr_type : WrType

abbrev pub no_rkey : RkeyInfo
no_rkey = record { rkey = 0; raddr = 0 }

-- What memset(…, 0, …) makes of a struct.
pub record Blank (H : Type 0) : Type 0 where
  pub blank : H

instance abbrev pub client_blank : Blank ClientHeaders
client_blank = record { blank = record { opcode = zero_opcode; tid = 0; keylen = 0; buflen = 0 } }

instance abbrev pub server_blank : Blank ServerHeaders
server_blank = record {
  blank = record { response = zero_response; tid = 0; keylen = 0; buflen = 0; rkey_info = no_rkey };
}

abbrev pub blank_message : {H : Type 0} ⦃z : Blank H⦄ → Message H
blank_message ⦃z⦄ = record { headers = z.blank; buffer = zeroed }
