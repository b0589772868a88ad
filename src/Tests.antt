-- ===== src/Tests.antt =====
-- The theorems at concrete inputs.
pub mod Company
mod Storing
mod Performing
pub mod Serving
mod Documents
mod Concurrent
mod Starting
mod Race
mod Riding
