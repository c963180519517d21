-- ===== src/Mqtt.antt =====
-- infrastructure/mqtt.
pub mod Client
pub mod Topics
