-- ===== src/Examples.antt =====
-- Tests, and each property applied to a concrete input.
mod Topics
mod Bus
mod Clients
mod Frames
mod Parsing
mod Stubs
mod Calls
mod Tool
mod Registry
mod Starting
mod Together
mod Timed
mod Served
mod Secure
mod Answered
mod Typed
