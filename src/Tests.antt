-- ===== src/Tests.antt =====
-- Concrete plugins, memories and requests, and the theorems at them.
mod Data
mod Maps
mod Host
mod HostApis
mod Answered
mod Calls
mod Contexts
mod Buffers
mod Loader
mod HttpCalls
mod GetHeaders
mod LocalResponses
mod Properties
mod Starts
