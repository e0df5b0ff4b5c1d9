-- ===== src/Mqtt.antt =====
-- The inbound MQTT adapter (infrastructure/mqtt/consumer.py) and the topics that it shares with the
-- simulator (config.py, `Settings.topic`).
pub mod Topic
pub mod Consumer
pub mod Connection
pub mod Ingestion
