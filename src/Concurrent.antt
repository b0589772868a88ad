-- ===== src/Concurrent.antt =====
-- The service with several requests at once. A request is a task: it takes the locks of the storage,
-- the cache and the limiter, and runs the statements, one access at a time (src/storage,
-- src/performance, src/handlers, src/middlewares).
pub mod Task
pub mod Writers
pub mod Readers
pub mod Requests
pub mod World
pub mod Alone
pub mod Accesses
pub mod Everywhere
pub mod History
pub mod Tokens
pub mod Logins
pub mod Rides
