-- ===== src/Tests.antt =====
-- Concrete inputs of the theorems, and runs of the definitions.
mod Samples
mod Circuits
mod Limits
mod Routing
mod Streams
mod Counters
mod Fallbacks
mod Storage
mod Messages
mod Relays
mod Requests
mod Repeats
mod Admin
mod Access
