-- ===== src/Handlers.antt =====
-- pkg/sbproxy/notifications/handlers
pub mod Payload
pub mod Broker
pub mod Visibility
