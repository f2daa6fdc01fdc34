-- ===== src/Sm.antt =====
-- pkg/sm: the client of the Service Manager.
pub mod Options
pub mod Client
pub mod Transport
