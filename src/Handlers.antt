-- ===== src/Handlers.antt =====
-- internal/handlers: what the HTTP handlers change in the configuration.
pub mod Peers
mod Tests
