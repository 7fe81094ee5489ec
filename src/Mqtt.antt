-- ===== src/Mqtt.antt =====
-- The MQTT client service (MqttService/MqttService.cpp, include/mqtt_utils.h).
pub mod Topic
pub mod State
pub mod Config
pub mod Connection
pub mod Handlers
pub mod Subscription
pub mod Publish
pub mod Receive
pub mod Run
pub mod Tests
