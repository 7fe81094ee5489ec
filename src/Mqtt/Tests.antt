-- ===== src/Mqtt/Tests.antt =====
-- Runs of the MQTT service (MqttService/MqttService.cpp) on concrete inputs.
pub mod Topics
pub mod Sessions
pub mod Exchanges
