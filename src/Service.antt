-- ===== src/Service.antt =====
-- application/service: the long-lived services around the Modbus client.
pub mod Dispatcher
pub mod Availability
pub mod Poller
pub mod Backoff
pub mod Supervisor
pub mod HaStatus
