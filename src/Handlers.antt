-- ===== src/Handlers.antt =====
-- The HTTP handlers of src/handlers. Each is an action that may throw: userver answers a throw.
pub mod UsersCreate
pub mod UsersGet
pub mod AuthLogin
pub mod DriversCreate
pub mod RidesCreate
pub mod RidesGet
pub mod Rules
pub mod Keys
pub mod Coherence
pub mod RidesAccept
pub mod RidesComplete
pub mod Writes
pub mod ReadOnly
