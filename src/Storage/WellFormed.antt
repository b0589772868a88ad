-- ===== src/Storage/WellFormed.antt =====
-- The methods of TaxiStorage that write and are called by the handlers, and the invariant.
mod Inserts
mod Rides
pub use Inserts.*
pub use Rides.*
