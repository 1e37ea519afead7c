-- ===== src/Gateway.antt =====
-- packages/gamebase-client/src: the connection to the gateway (gateway-socket.ts), with its
-- waiting times
-- (backoff.ts) and the meaning of its close codes (close-codes.ts).
pub mod Backoff
pub mod CloseCodes
pub mod Socket
mod Tests
