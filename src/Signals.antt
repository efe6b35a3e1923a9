-- ===== src/Signals.antt =====
-- internal/iwdbus/introspect.go: the signal handlers of an introspected object.
mod Tests
pub mod Registry
pub mod Subscriptions
pub mod Lifecycle
