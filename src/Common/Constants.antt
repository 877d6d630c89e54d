-- ===== src/Common/Constants.antt =====
-- The macros and the enums of common/constants.h.
use rdma_rendezvous_key_valu.Prelude.{ℕ, ◌-◌, ◌/◌}

abbrev pub max_clients_supported : ℕ
max_clients_supported = 4

abbrev pub server_wc_batch : ℕ
server_wc_batch = 200

abbrev pub wc_batch : ℕ
wc_batch = 50

abbrev pub server_num_recv_buffs : ℕ
server_num_recv_buffs = 4000

abbrev pub server_num_send_buffs : ℕ
server_num_send_buffs = 1000

abbrev pub client_header_len : ℕ
client_header_len = 24

abbrev pub server_header_len : ℕ
server_header_len = 40

abbrev pub buffer_size : ℕ
buffer_size = 4096

abbrev pub exchange_msg_size : ℕ
exchange_msg_size = 52

-- (1.0 / MAX_CLIENTS_SUPPORTED) * SERVER_NUM_RECV_BUFFS, as an `int`
abbrev pub max_recv_buffs : ℕ
max_recv_buffs = server_num_recv_buffs / max_clients_supported

abbrev pub client_request_payload_len : ℕ
client_request_payload_len = buffer_size - client_header_len

abbrev pub server_response_payload_len : ℕ
server_response_payload_len = buffer_size - server_header_len

-- `wr_type` of a work request; any other value of the word is `other_wrid`.
pub data WrType : Type 0 where
  recv_wrid send_wrid rdma_read_wrid rdma_write_wrid other_wrid : WrType

-- `opcode_t`; any other value of the word is `other_opcode`.
pub data Opcode : Type 0 where
  zero_opcode set_request get_request rdma_set_request rdma_get_request : Opcode
  rdma_fin_client client_shutdown other_opcode : Opcode

-- `response_t`; any other value of the word is `other_response`.
pub data ResponseKind : Type 0 where
  zero_response get_response set_response rdma_rkey_set rdma_rkey_get : ResponseKind
  rdma_fin_server server_shutdown other_response : ResponseKind
