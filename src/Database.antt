-- ===== src/Database.antt =====
-- The PostgreSQL tables of schema.sql. The statements on them (src/storage/taxi_storage.cpp) are
-- the children Users, Drivers and Rides.
pub mod Rows
pub mod Tables
pub mod Users
pub mod Drivers
pub mod Rides
pub mod Invariant
pub mod Inserts
