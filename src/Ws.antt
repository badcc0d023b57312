-- ===== src/Ws.antt =====
-- src/model/ws_client.cpp: the WebSocket client. Bytes are numbers below 256.
pub mod Bytes
pub mod Reader
pub mod Frame
pub mod Lengths
pub mod RoundTrip
pub mod Sender
pub mod Client
pub mod Answers
pub mod Turns
pub mod Receive
