-- ===== src/Modbus.antt =====
-- infrastructure/modbus: the byte encoding, the error classes, and the TCP client.
pub mod Decode
pub mod Classify
pub mod Client
