-- ===== src/Tests.antt =====
-- Samples, and the theorems applied to them.
mod Samples
mod Transfers
mod Endpoints
mod Buses
mod Loops
mod Links
mod Wiring
mod Controllers
mod Readers
mod Buffers
mod Resolvers
mod Marks
