-- ===== src/Websocket.antt =====
-- The WebSocket layer: include/websocket.hpp (frames) and include/websocket_server.hpp (a live
-- connection).
pub mod Accept
pub mod Connection
pub mod Frame
pub mod Opening
pub mod Terminal
