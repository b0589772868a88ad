-- ===== src/Middlewares.antt =====
-- The middlewares of src/middlewares.
pub mod Auth
