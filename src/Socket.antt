-- ===== src/Socket.antt =====
-- The service Socket: the websockets to the exchange, and the streams that serve their messages.
pub mod Connection
pub mod Hub
pub mod Supervisor
pub mod Tests
