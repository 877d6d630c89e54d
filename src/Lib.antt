-- ===== src/Lib.antt =====
-- A key-value store over RDMA: a server and up to four clients exchange requests and responses in
-- registered buffers, small values inside the messages, large ones by RDMA reads and writes.
--
-- Prelude.antt holds the numbers, lists, bytes and strings of C that all parts use, and
-- Prelude/Exec.antt the monad of the stateful code: a function of C is a function from a state to
-- an `Outcome`, which is a result with the new state, an exit of the process with its status, a
-- fault (undefined behaviour: a null or freed pointer, an index or a copy out of bounds), or
-- `stuck`, that a loop waiting for the adapter has used up its fuel. Platform.antt holds what the
-- code calls and this repository does not implement, as an instance argument: the macros of
-- external_libs/uthash.h and utlist.h, read-write locks, calloc and libibverbs, with the laws that
-- their documentation promises; Platform/Instance.antt is one platform that meets them.
--
-- Common: Constants.antt, Message.antt and Context.antt are common/constants.h; Buffers.antt is
-- common/buffers_management.c. Server: Pool.antt is the array of preallocated entries that
-- server_internals/db.c and server_requests_management.c both have (reallocate_entries,
-- get_empty_buffer); Db.antt is the rest of db.h and db.c, with the table of entries in
-- Db/Items.antt and their locks in Db/RwLocks.antt; Store.antt and Requests.antt are
-- server_requests_management.h and .c, which calls db.c; State.antt is the state of server.c,
-- Connections.antt its table of connections and receive buffers, Handlers.antt its handlers of
-- requests, which call the store, and Completions.antt server_wait_completions, which calls the
-- handlers, and handle_pending_request, and Teardown.antt what server.c and server_internals/ free
-- before the process ends. Client: Tid.antt is struct tid_counter and get_new_tid of client.c,
-- Requests.antt client_internals/client_requests_management.h and .c, State.antt the state of
-- client.c, Completions.antt what it posts, with its handlers of completions in
-- Completions/Handling.antt, Api.antt client_wait_completions, kv_get and kv_set, Input.antt its
-- two readers of input files, from the bytes that getline cuts into lines (with the lines of
-- inputs/generate_inputs.py in Input/Lines.antt), and Teardown.antt kv_close, the shutdown message
-- and client_loop. Common/Connection.antt is the
-- text of a gid in common/connection.c, and Handshake.antt the addresses that client.c and
-- server.c send each other before they use RDMA: Handshake/Sockets.antt the socket and its reading
-- loops, Handshake/Dial.antt client_exch_dest, and Handshake/Accept.antt
-- handle_received_connection_data. Handshake/Listen.antt is how server.c makes its listening socket,
-- selects and accepts (create_listen_socket, query_for_connections, accept_new_connection), with
-- what the operating system returns in the state. Common/Objects.antt has the memory and the
-- objects of libibverbs that server_init_ctx and client_init_ctx of common/connection.c make
-- (Objects/Setup.antt) and that server_close_ctx and client_close_ctx release (Objects/Release.antt).
-- Main.antt is main.c and the course of the server as a whole: init_server_connection,
-- server_loop and teardown_server_connection; Main/Open.antt is kv_open. A function keeps its
-- name; a branch or a loop that is a definition of its own says which one it is. Exchange.antt follows a SET and a GET from the
-- server's handlers to the client's, and Exchange/Calls.antt from kv_set and kv_get to the
-- server's handlers and back. Tests holds the theorems at concrete inputs.
--
-- Pointers to allocations are numbers into a heap of structs that is part of the state, so two
-- pointers to one struct share it, and `none` is NULL. A loop `for (i = 0; i < n; i++)` is a
-- recursion on the rounds left. The `while` of the searches for a buffer takes as much fuel as
-- there are buffers, which is one round over them; the loops that wait for the adapter take fuel
-- that the caller chooses, since the adapter may never answer, and are `stuck` without it. An
-- `int` is ℤ without overflow, as its overflow is undefined; unsigned widths wrap where the code
-- can reach the bound.
--
-- Not modelled: the printing functions, the attributes and addresses that the calls of libibverbs
-- and of the sockets take, signals (the loops get the flag that the handler sets, or the rounds
-- before it), the measuring of time, the tests, and the two vendored headers: they have no part in
-- what the programs compute, or are not part of them. An exit path of a handler ends a run without
-- the teardown before it, which is modelled where the server starts and ends.
pub mod Prelude
pub mod Platform
pub mod Common
pub mod Server
pub mod Client
pub mod Handshake
pub mod Exchange
pub mod Main
pub mod Tests
