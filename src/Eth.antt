-- ===== src/Eth.antt =====
-- The Ethereum client of the relay (eth-client/src/eth-connect.service.ts and
-- eth-connect.controller.ts).
pub mod World
pub mod Action
pub mod Issues
pub mod Handles
pub mod Network
pub mod Casting
pub mod Polling
pub mod Frames
pub mod Ticks
pub mod Contracts
pub mod Validation
pub mod Listening
pub mod Service
pub mod Invariants
pub mod Controller
pub mod Reach
pub mod Startup
pub mod Table
pub mod Samples
