-- ===== src/Handshake/Dial.antt =====
-- client_exch_dest of client.c from its sprintf on, with the socket connected. The bytes of a
-- message are its text and a zero byte.
pub mod Answered
use rdma_rendezvous_key_valu.Prelude.{
  ℕ, ◌+◌, Bool, List, [], ◌∷◌, ◌++◌, Option, none, some, if◌then◌else◌, ◌==◌, length,
}
use rdma_rendezvous_key_valu.Prelude.Exec.{Exec, pure, modify, deref, assert, zoom, ◌>>=◌, ◌>>◌}
use rdma_rendezvous_key_valu.Common.Constants.{exchange_msg_size}
use rdma_rendezvous_key_valu.Common.Connection.{KvDest}
use rdma_rendezvous_key_valu.Client.Tid.{TidCounter, set_client_id}
use rdma_rendezvous_key_valu.Handshake.{client_message, read_server_message}
use rdma_rendezvous_key_valu.Handshake.Sockets.{Socket, write_bytes, read_exactly, close}

-- sizeof msg_in, and that of msg_out in server.c
abbrev pub answer_size : ℕ
answer_size = 57

abbrev pub done_message : List ℕ
done_message = b'd' ∷ b'o' ∷ b'n' ∷ b'e' ∷ 0 ∷ []

-- The string at the start of an array.
unfoldable pub text_of : List ℕ → Option (List ℕ)
text_of [] = none
text_of (c ∷ cs) =
    let rest = text_of cs in
    if c == 0 then some [] else elim rest [ none ↦ none | some t ↦ some (c ∷ t) ]

pub record Dialer : Type 0 where
  pub socket : Socket
  pub last_used_tid : TidCounter

abbrev pub in_socket : {A : Type 0} → Exec Socket A → Exec Dialer A
in_socket = zoom (λ s. s.socket) (λ s t. record s { socket = t })

-- `allocated` is whether the calloc of rem_dest succeeds, and `none` is NULL.
unfoldable pub client_exch_dest : Bool → KvDest → Exec Dialer (Option KvDest)
client_exch_dest allocated my_dest = do
  let msg = client_message my_dest ++ 0 ∷ []
  assert (length msg == exchange_msg_size)
  sent ← in_socket (write_bytes msg)
  if sent
      then (do
        received ← in_socket (read_exactly answer_size)
        elim received [
          | none ↦ do in_socket close; pure none
          | some msg_in ↦ do
            in_socket (write_bytes done_message)
            if allocated
                then (do
                  text ← deref (text_of msg_in)
                  (t, rem_dest) ← deref (read_server_message text)
                  modify λ s. record s { last_used_tid = set_client_id t s.last_used_tid }
                  pure (some rem_dest))
                else (do in_socket close; pure none)
        ])
      else (do in_socket close; pure none)
