-- ===== src/Server/Handlers/Empty.antt =====
-- Requests with an empty key.
use rdma_rendezvous_key_valu.Prelude.{ℕ, ◌≡◌, [], none, some, Bytes, c_string, Bool-cases, inl, inr}
use rdma_rendezvous_key_valu.Prelude.Exec.{Exec, exited, pure}
use rdma_rendezvous_key_valu.Platform.{Platform}
use rdma_rendezvous_key_valu.Common.Message.{ClientHeaders, WrIdInfo}
use rdma_rendezvous_key_valu.Server.Db.{calloc}
use rdma_rendezvous_key_valu.Server.Db.Items.{db_get, db_insert}
use rdma_rendezvous_key_valu.Server.State.{Server}
use rdma_rendezvous_key_valu.Server.Handlers.{
  calloc_value, find_or_insert, handle_set_request, handle_get_request,
}
use rdma_rendezvous_key_valu.Server.Handlers.Set.{read_string_lem}

module _ ⦃x : Platform⦄ where
  find_or_insert-empty :
      (s : Server)
      → x.keys.find [] s.store.db.rest.internal_db ≡ none
      → (find_or_insert (pure (some [])) [] s ≡ exited 1)
        × (find_or_insert calloc_value [] s ≡ exited 1)
  unfolding find_or_insert calloc_value calloc db_get db_insert
  find_or_insert-empty s absent = (
    rw absent,
    elim (Bool-cases (x.calloc s.store.db.rest.calls)) [
      | inl made ↦ rw (absent, made)
      | inr failed ↦ rw (absent, failed)
    ],
  )

  -- A request whose key is empty, while the table has no empty key, ends the server with the status
  -- 1, be it a SET or a GET, and whatever else is in it.
  pub empty_key_ends :
      (rounds : ℕ) (wait : Exec Server (Unit {0})) (qp : ℕ) (headers : ClientHeaders) (room : ℕ)
      (buffer : Bytes) (info : WrIdInfo) (s : Server)
      → c_string room buffer ≡ some []
      → x.keys.find [] s.store.db.rest.internal_db ≡ none
      → (handle_set_request rounds wait qp headers room buffer info s ≡ exited 1)
        × (handle_get_request rounds wait qp headers room buffer info s ≡ exited 1)
  unfolding handle_set_request handle_get_request
  empty_key_ends rounds wait qp headers room buffer info s read absent = (
    rw (read_string_lem s room buffer [] read, (find_or_insert-empty s absent).0),
    rw (read_string_lem s room buffer [] read, (find_or_insert-empty s absent).1),
  )
