-- ===== src/Authorization.antt =====
-- The service Authorization: accounts, sessions and their tokens, and its gRPC server.
pub mod Models
pub mod Users
pub mod Tokens
pub mod Server
pub mod App
pub mod Tests
