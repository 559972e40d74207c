-- ===== src/Aggregator.antt =====
-- The service Aggregator: the streams of trades and day statistics, and what is made of them.
pub mod StreamManager
pub mod Models
pub mod Pipeline
pub mod Converting
pub mod Receiving
pub mod Producer
pub mod Endpoints
pub mod Getenv
pub mod Config
pub mod Main
pub mod Tests
