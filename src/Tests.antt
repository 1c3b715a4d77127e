-- ===== src/Tests.antt =====
-- Each theorem that has conditions, applied at concrete values that satisfy them.
mod HttpRequests
mod HttpServing
mod InprocStreams
mod Cloning
mod Streams
mod Invocations
mod Https
mod HttpStreams
mod HttpCallers
mod HttpCalls
mod ClientChains
mod ServerChains
mod Registering
mod Events
mod Generating
