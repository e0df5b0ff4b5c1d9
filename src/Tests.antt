-- ===== src/Tests.antt =====
-- The properties at concrete inputs.
mod Audit
mod Keyring
mod Operations
mod Registry
mod Release
mod Evidence
mod Settings
mod Storage
mod Alerts
mod Evaluation
mod Telemetry
mod Mqtt
