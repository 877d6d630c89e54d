-- ===== src/Server/Requests/Truncated.antt =====
-- What push_pending_request of server_requests_management.c copies of a request that has to wait.
use rdma_rendezvous_key_valu.Prelude.{
  ℕ, suc, ◌+◌, ◌%◌, ◌^◌, ◌≤◌, ◌<◌, ◌≡◌, true, [], some, if◌then◌else◌, ltb, update, arith, Bytes,
  zeroed, splice, splice-read_bytes, read_bytes, advance, c_string, c_string-empty, pos, le→leb,
}
use rdma_rendezvous_key_valu.Prelude.Exec.{done}
use rdma_rendezvous_key_valu.Platform.{Platform}
use rdma_rendezvous_key_valu.Common.Constants.{client_request_payload_len, client_header_len}
use rdma_rendezvous_key_valu.Common.Message.{ClientHeaders, WrIdInfo}
use rdma_rendezvous_key_valu.Server.Store.{Request, ReqRest}
use rdma_rendezvous_key_valu.Server.Requests.{request_room, copied_length, fill_request}
use rdma_rendezvous_key_valu.Server.Handlers.{fits_request}
use rdma_rendezvous_key_valu.Server.Db.{u32}

module _ ⦃x : Platform⦄ where
  module _ (p tid : ℕ) (info : WrIdInfo) (headers : ClientHeaders) (buffer : Bytes) (qp : ℕ)
      (s : ReqRest) (req : Request) (b : Bytes) where
    abbrev pub copied : Bytes
    copied = splice b 0 (read_bytes buffer (copied_length headers))

    abbrev pub filled : ReqRest
    filled = record s {
      requests = update s.requests p (
          some (record req {
            is_pending = true;
            tid = pos tid;
            info = info;
            headers = headers;
            qp = some qp;
            qp_num = qp;
            buffer = some copied;
          }));
    }

    -- If the lengths do not overflow a size_t and what is copied fits the buffer, filling a
    -- pending request keeps its header and its queue pair. Its buffer has all of the request's
    -- bytes if the header's length, the two lengths and 2 together are at most the payload's
    -- length. Otherwise it has the first keylen bytes, and behind them what the buffer held
    -- before.
    pub fill_request_lem :
        s.requests p ≡ some req
        → req.buffer ≡ some b
        → client_header_len + headers.keylen + headers.buflen + 2 < 2 ^ 64
        → copied_length headers ≤ request_room
        → (fill_request p tid info headers buffer qp s ≡ done (tt, filled))
          × (client_header_len + headers.keylen + headers.buflen + 2 ≤ client_request_payload_len
              → (i : ℕ) → i < client_header_len + headers.keylen + headers.buflen + 2
              → copied i ≡ buffer i)
          × (client_request_payload_len < client_header_len + headers.keylen + headers.buflen + 2
              → (i : ℕ) → copied i ≡ (if ltb i headers.keylen then buffer i else b i))
    unfolding fill_request copied_length
    fill_request_lem at held small room = (
      rw (at, held, le→leb (copied_length headers) request_room room),
      λ short i h. rw (splice-read_bytes b buffer (copied_length headers) i) (ground arith),
      λ long i. rw (splice-read_bytes b buffer (copied_length headers) i) (ground arith),
    )

    -- A SET whose value came with the request, and whose lengths do not overflow, loses the value
    -- when it has to wait, if the header's length is what makes it longer than the payload: in a
    -- new request's buffer the value then reads as the empty string, whatever it was.
    pub pending_value_lost :
        (n : ℕ)
        → b ≡ zeroed
        → fits_request (headers.buflen % u32) headers.keylen ≡ true
        → headers.buflen + headers.keylen + 2 < u32
        → client_request_payload_len < client_header_len + headers.keylen + headers.buflen + 2
        → c_string (suc n) (advance copied (headers.keylen + 1)) ≡ some []
    unfolding copied_length
    pending_value_lost n fresh fits small long =
        c_string-empty n (advance copied (headers.keylen + 1)) (
          rw (splice-read_bytes b buffer (copied_length headers) (headers.keylen + 1 + 0), fresh)
            (ground arith))
