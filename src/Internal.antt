-- ===== src/Internal.antt =====
-- Package internal: what the two transports share. (internal/sse is module Sse.)
pub mod TransportStream
pub mod CallOptions
pub mod Misc
