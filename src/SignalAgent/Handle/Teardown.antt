-- ===== src/SignalAgent/Handle/Teardown.antt =====
-- Unregistering a signal-level agent once, and once more.
