-- ===== src/Telemetry.antt =====
-- Telemetry readings, the anomaly rules on them and the use case that stores both
-- (domain/telemetry.py, domain/anomaly.py, domain/services/anomaly_detection.py,
-- application/services/anomaly_detection.py, application/services/telemetry.py).
pub mod Reading
pub mod Detection
pub mod Service
