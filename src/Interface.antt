-- ===== src/Interface.antt =====
-- interface: the ways into the bridge.
pub mod CommandSubscriber
pub mod Health
