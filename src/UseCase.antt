-- ===== src/UseCase.antt =====
-- application/usecase: what the bridge does with one poll, one command, one snapshot.
pub mod PollController
pub mod ApplyCommand
pub mod Publish
pub mod PublishState
pub mod PublishDiscovery
