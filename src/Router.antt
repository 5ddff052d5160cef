-- ===== src/Router.antt =====
-- localgateway/router.py: the order in which the backends of a model are tried.
pub mod Types
pub mod Candidates
pub mod Sorting
pub mod Rotation
pub mod Affinity
pub mod Selection
pub mod Tiering
pub mod Preferring
pub mod Tally
pub mod Emission
pub mod Once
pub mod Deferral
pub mod DeferralAll
