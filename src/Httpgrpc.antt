-- ===== src/Httpgrpc.antt =====
-- Package httpgrpc: gRPC over HTTP 1.1.
pub mod Frames
pub mod Codes
pub mod Protocol
pub mod Headers
pub mod Status
pub mod Timeout
pub mod Events
pub mod Method
pub mod Wire
pub mod ServerStream
pub mod ClientStream
pub mod Channel
pub mod Server
pub mod Json
