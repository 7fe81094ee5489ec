-- ===== src/Fleet.antt =====
-- The provisioning of a device in the AWS fleet (AwsFleetProv/AwsFleetProv.cpp), a client of the MQTT
-- service.
pub mod Mkdir
pub mod State
pub mod Messages
pub mod Requests
pub mod Worker
pub mod Config
pub mod Run
pub mod Restart
mod Tests
