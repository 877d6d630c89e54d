-- ===== src/Handshake/Listen/Lost.antt =====
-- Clients that server.c accepts and drops, and a listening socket that it has closed.
use rdma_rendezvous_key_valu.Prelude.{
  ℕ, suc, ◌+◌, ◌<◌, ◌≤◌, ◌≡◌, refl, ap, Bool, true, false, List, [], ◌∷◌, ◌++◌, Option, none, some,
  if◌then◌else◌, ◌==◌, arith, length, pos, ==_refl, ap, Bool-cases, inl, inr, ne→==_false, lt→ltb,
  le→not-ltb,
}
use mathlib.Core.List.{append-nil, append_assoc}
use rdma_rendezvous_key_valu.Prelude.Exec.{Outcome, done, Exec}
use rdma_rendezvous_key_valu.Platform.{Platform}
use rdma_rendezvous_key_valu.Common.Constants.{max_clients_supported}
use rdma_rendezvous_key_valu.Common.Connection.{KvDest}
use rdma_rendezvous_key_valu.Server.Connections.{check_available_connection_slots}
use rdma_rendezvous_key_valu.Handshake.Listen.{
  OsCall, Listening, Listener, create_listen_socket, open_listen_socket, configure, require,
  accept_each, handle_ready, select_loop, query_for_connections, accept_new_connection, calloc,
  sprintf, getaddrinfo, only_address, setsockopt, ioctl, bind, listen,
}

-- What accept returns for those clients, and then that no more wait.
abbrev pub arriving : List ℕ → List (Option ℕ)
arriving [] = none ∷ []
arriving (sd ∷ sds) = some sd ∷ arriving sds

-- A run that leaves listen_sd as it is, and closes it exactly if the result is EXIT_FAILURE.
abbrev pub Keeps : ℕ → List ℕ → Outcome (Bool × Listening) → Type 0
Keeps sd closed r =
    (b : Bool) × (s : Listening) × (r ≡ done (b, s))
    × (s.listen_sd ≡ some sd)
    × (s.closed ≡ (if b then closed else sd ∷ closed))

module _ (sd : ℕ) (closed : List ℕ) where
  configure-Keeps :
      (call : OsCall) (next : Exec Listening Bool)
      → ((s : Listening) → s.listen_sd ≡ some sd → s.closed ≡ closed → Keeps sd closed (next s))
      → (s : Listening) → s.listen_sd ≡ some sd
      → s.closed ≡ closed
      → Keeps sd closed (configure call sd next s)
  unfolding configure
  configure-Keeps call next keeps s at same = elim (Bool-cases (s.succeeds call s.calls)) [
    | inl ok ↦ rw ok (keeps (record s { calls = suc s.calls }) at same)
    | inr failed ↦ rw failed (false, _, refl, at, ap (λ c. sd ∷ c) same)
  ]

  open_listen_socket-Keeps :
      (s : Listening)
      → s.socket s.calls ≡ some sd
      → s.closed ≡ closed
      → Keeps sd closed (open_listen_socket s)
  unfolding open_listen_socket
  open_listen_socket-Keeps s made same = rw made (
      configure-Keeps setsockopt _
        (configure-Keeps ioctl _ (
          configure-Keeps bind _
            (configure-Keeps listen _ (λ s at same. (true, s, refl, at, same)))))
        (record s { listen_sd = some sd; calls = suc s.calls }) refl same)

-- Where a socket is made, listen_sd is its number in the end, whether create_listen_socket returns
-- EXIT_SUCCESS or not. If it returns EXIT_FAILURE, that socket is closed, and if not, it is not;
-- nothing else is closed.
pub create_listen_socket-Keeps :
    (s : Listening) (sd : ℕ)
    → s.succeeds calloc s.calls ≡ true
    → s.succeeds sprintf (suc s.calls) ≡ true
    → s.succeeds getaddrinfo (suc (suc s.calls)) ≡ true
    → s.succeeds only_address (suc (suc (suc s.calls))) ≡ true
    → s.socket (suc (suc (suc (suc s.calls)))) ≡ some sd
    → Keeps sd s.closed (create_listen_socket s)
unfolding create_listen_socket require
create_listen_socket-Keeps s sd service written found single made =
    rw (service, written, found, single)
      (open_listen_socket-Keeps sd s.closed (record s { calls = suc (suc (suc (suc s.calls))) })
        made refl)

module _ ⦃x : Platform⦄ where
  abbrev pub numbered : Listener → List ℕ → List (Option ℕ) → ℕ → Listener
  numbered s sds accepts n = record {
    os = record s.os { master_set = sds; accepts = accepts };
    server = record s.server { current_number_conns = pos n };
  }

  accept_each-arriving :
      (sds set : List ℕ) (accepts : List (Option ℕ)) (n : ℕ) (s : Listener)
      → n + length sds ≤ max_clients_supported
      → accept_each (arriving sds) (numbered s set accepts n)
        ≡ done (tt, numbered s (set ++ sds) [] (n + length sds))
  unfolding accept_each
  accept_each-arriving [] set accepts n s room =
      let n-zero : n ≡ n + 0 = omega arith in rw (append-nil set, ← n-zero)
  accept_each-arriving (sd ∷ sds) set accepts n s room =
      let below : (n == max_clients_supported) ≡ false =
        ne→==_false n max_clients_supported (λ h. omega arith) in
      let n-suc : suc n + length sds ≡ n + suc (length sds) = omega arith in
      rw (below, ← n-suc, ← append_assoc set (sd ∷ []) sds)
        (accept_each-arriving sds (set ++ sd ∷ []) accepts (suc n) s (omega arith))

  module _ (random : ℕ) (port_dest : KvDest) (s : Listener) (listen_sd n : ℕ) (sds : List ℕ) where
    -- The listening socket is readable once, those clients wait, and then nothing happens in time.
    abbrev pub waiting_clients : Listener
    waiting_clients = record {
      os = record s.os {
        listen_sd = some listen_sd;
        master_set = [];
        selects = some (listen_sd ∷ []) ∷ some [] ∷ [];
        accepts = arriving sds;
      };
      server = record s.server { current_number_conns = pos n };
    }

    abbrev pub after_waiting : Listener
    after_waiting = record {
      os = record s.os {
        listen_sd = some listen_sd;
        master_set = [];
        closed = sds ++ s.os.closed;
        selects = [];
        accepts = [];
      };
      server = record s.server { current_number_conns = pos (n + length sds) };
    }

    pub accept_new_connection-lost :
        n < max_clients_supported
        → n + length sds ≡ max_clients_supported
        → (accept_new_connection random port_dest waiting_clients ≡ done (true, after_waiting))
          × (accept_new_connection random port_dest after_waiting ≡ done (false, after_waiting))
    unfolding accept_new_connection check_available_connection_slots query_for_connections
        select_loop handle_ready
    accept_new_connection-lost free full =
        let accepted =
          accept_each-arriving sds [] (arriving sds) n waiting_clients (omega (arith, full)) in
        (
          rw (lt→ltb n max_clients_supported free, ==_refl listen_sd, accepted),
          rw (le→not-ltb (n + length sds) max_clients_supported (omega (arith, full))),
        )
