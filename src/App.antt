-- ===== src/App.antt =====
-- internal/app/app.go: the composition root.
pub mod Wiring
pub mod Delays
pub mod Callbacks
pub mod Requests
pub mod Run
pub mod Order
