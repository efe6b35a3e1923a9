-- ===== src/Signals/Subscriptions.antt =====
-- What the handler maps of internal/iwdbus/introspect.go promise, against a list of the live
-- subscriptions in the order of their registration.
pub mod Maps
pub mod Ids
pub mod Live
pub mod Steps
pub mod Runs
pub mod Soundness
pub mod Storing
pub mod Unsubscribing
pub mod Calls
pub mod Names
pub mod Delivery
pub mod Delivered
