-- ===== src/Storage/Tokens.antt =====
-- Login, IsTokenValid and MakeToken.
pub mod Naming
pub mod Issue
pub mod Login
