-- ===== src/Tests.antt =====
-- The theorems at concrete inputs, on the platform of Platform/Instance.antt.
pub mod Buffers
pub mod Clients
pub mod Entries
pub mod Requests
pub mod Handlers
pub mod Handshakes
pub mod Inputs
pub mod Calls
pub mod Connections
pub mod Dialogs
pub mod Rendezvous
pub mod Maps
pub mod Starts
