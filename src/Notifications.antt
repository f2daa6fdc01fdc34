-- ===== src/Notifications.antt =====
-- pkg/sbproxy/notifications
pub mod Consumer
pub mod Producer
