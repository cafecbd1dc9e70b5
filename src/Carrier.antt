-- ===== src/Carrier.antt =====
-- internal/wscarrier/wscarrier.go, the WebSocket carrier: its frames, the connection and the pump
-- that carry a byte stream over them, and the handshake's helpers.
pub mod Frame
pub mod Stream
