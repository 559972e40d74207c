-- ===== src/KafkaClickhouse.antt =====
-- The service Kafka-ClickHouse: it takes the messages from Kafka and inserts them into a table.
pub mod Repository
pub mod Consumer
pub mod Service
pub mod Config
pub mod Tests
