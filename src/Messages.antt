-- ===== src/Messages.antt =====
-- The package `src/messages`: the log holder, and the notifiers that write to it, to the client and
-- to OpenTelemetry.
pub mod Holder
pub mod Otel
pub mod Notifier
pub mod Hybrid
