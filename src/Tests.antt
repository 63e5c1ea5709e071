-- ===== src/Tests.antt =====
-- The concrete inputs of the examples, and the examples.
pub mod World
pub mod Examples
pub mod SignIn
pub mod Agents
pub mod Service
pub mod Profiles
