-- ===== src/Components.antt =====
-- The start of the service: userver constructs the components (src/main.cpp) as their sections
-- validate and what their constructors find is there.
pub mod Own
pub mod Config
pub mod Start
pub mod Rounds
pub mod Completes
