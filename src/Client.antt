-- ===== src/Client.antt =====
-- The client: client_internals/ and client.c.
pub mod Tid
pub mod Requests
pub mod State
pub mod Completions
pub mod Api
pub mod Input
pub mod Teardown
