-- ===== src/Main/Start.antt =====
-- The end of init_server_connection of server.c where there is no device.
use rdma_rendezvous_key_valu.Prelude.{
  ℕ, ◌≡◌, ◌⊎◌, inl, inr, Option-cases, Bool, true, false, Option, none, some,
}
use rdma_rendezvous_key_valu.Prelude.Exec.{done, fault}
use rdma_rendezvous_key_valu.Platform.{Platform}
use rdma_rendezvous_key_valu.Common.Objects.{Verbs}
use rdma_rendezvous_key_valu.Server.Db.{no_db}
use rdma_rendezvous_key_valu.Server.Store.{Store, no_reqs}
use rdma_rendezvous_key_valu.Server.Teardown.{
  db_destroy, server_pending_requests_destroy, clear_preallocated_buffers,
}
use rdma_rendezvous_key_valu.Main.{
  PortInfo, Process, init_server_connection, teardown_server_connection,
}

module _ ⦃x : Platform⦄ where
  db_destroy-unset : db_destroy no_db ≡ fault
  unfolding db_destroy clear_preallocated_buffers
  db_destroy-unset = rw x.keys.iter-empty

  server_pending_requests_destroy-unset :
      (s : Store)
      → server_pending_requests_destroy (record s { reqs = no_reqs })
        ≡ done (tt, record s { reqs = no_reqs })
  unfolding server_pending_requests_destroy
  server_pending_requests_destroy-unset s = rw (x.tids.iter-empty, x.tids.iter-empty)

  -- With the static variables of the database and of the pending requests as at the start.
  abbrev pub starting : Process → Process
  starting s = record s {
    listener = record s.listener {
      server = record s.listener.server { store = record { db = no_db; reqs = no_reqs } };
    };
  }

  module _ ⦃v : Verbs⦄ (depth : ℕ) where
    teardown-starting :
        {A : Type 0} (s : Process) (retcode : ℕ)
        → teardown_server_connection depth {A = A} none retcode (starting s) ≡ fault
    unfolding teardown_server_connection
    teardown-starting s retcode = elim (Option-cases s.listener.os.listen_sd) [
      | inl unset ↦ rw unset (
          rw (
            server_pending_requests_destroy-unset (record { db = no_db; reqs = no_reqs }),
            db_destroy-unset,
          ))
      | inr (sd, set) ↦ rw set (
          rw (
            server_pending_requests_destroy-unset (record { db = no_db; reqs = no_reqs }),
            db_destroy-unset,
          ))
    ]

    -- Without a list of devices, or without a device in it, the server does not end with the
    -- status 1: before init_server_connection comes to the exit, in the state in which the process
    -- starts, it reads the array of preallocated entries, which is null.
    pub init_server_connection-no_device :
        (devices : Option Bool) (port : Option PortInfo) (s : Process)
        → (devices ≡ none) ⊎ (devices ≡ some false)
        → init_server_connection depth devices port (starting s) ≡ fault
    unfolding init_server_connection
    init_server_connection-no_device none port s missing =
        teardown-starting (record s { dev_list = false }) 1
    init_server_connection-no_device (some false) port s missing =
        teardown-starting (record s { dev_list = true }) 1
    init_server_connection-no_device (some true) port s (inl e) = cc
    init_server_connection-no_device (some true) port s (inr e) = cc
