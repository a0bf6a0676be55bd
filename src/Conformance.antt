-- ===== src/Conformance.antt =====
-- conformance: the profiles, the suite and the helpers of the conformance tests, and pkg/features.
pub mod Features
pub mod Profiles
pub mod Reports
pub mod Suite
pub mod Await
pub mod Conditions
pub mod Runs
pub mod Listeners
pub mod Polls
pub mod Compare
pub mod Flags
