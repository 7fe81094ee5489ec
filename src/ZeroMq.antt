-- ===== src/ZeroMq.antt =====
-- The ZeroMQ service (ZeroMqService/ZeroMqService.cpp): clients open and close a socket and send
-- messages; one worker thread, of a request or of a reply socket, does the work. A critical section
-- under `m_mux` is one step; where the code goes on from one wait to the next without releasing the
-- mutex, the model lets other threads act between.
pub mod State
pub mod Config
pub mod Worker
pub mod Session
pub mod Close
pub mod Sent
pub mod Tests
