-- ===== src/Server.antt =====
-- The server: server_internals/ and server.c.
pub mod Pool
pub mod Db
pub mod Store
pub mod Requests
pub mod State
pub mod Connections
pub mod Handlers
pub mod Completions
pub mod Teardown
