-- ===== src/Common.antt =====
-- common/constants.h and common/buffers_management.c, which the server and the client share.
pub mod Constants
pub mod Message
pub mod Context
pub mod Buffers
pub mod Connection
pub mod Objects
