-- ===== src/Serial.antt =====
-- The serial protocol: `Serial` of include/software-on-silicon/Serial.hpp with the two crossovers
-- of MCUFPGA.hpp and the two endpoints of impl/MCUFPGA.cpp.
pub mod State
pub mod Crossover
pub mod Queries
pub mod Requests
pub mod ReadHook
pub mod WriteHook
pub mod EventLoop
pub mod Ready
pub mod Incoming
pub mod Outgoing
pub mod Invariant
pub mod Runs
pub mod Frame
pub mod Shutdown
pub mod Link
pub mod Signalling
