-- ===== src/Websocket.antt =====
-- The websocket server service (WebsocketCppService/WebsocketCppService.cpp) and the server around
-- websocketpp that it uses (WsServer.h, WsServerTls.cpp and LogStream.cpp beside it).
pub mod State
pub mod Callbacks
pub mod Sending
pub mod Control
pub mod LogStream
pub mod Tls
pub mod Server
pub mod Tests
