-- ===== src/MqMessage.antt =====
-- The message service over message queues of the system (MqMessageService/MqMessageService.cpp):
-- Service has the state and the operations, Posix the calls of the system, Channel the service with
-- its task queue and its two threads.
pub mod Posix
pub mod Service
pub mod Laws
pub mod Channel
pub mod Tests
