-- ===== src/Worker.antt =====
-- src/worker.hpp, src/worker.cpp
pub mod State
pub mod Stoi
pub mod Db
pub mod Api
pub mod App
pub mod Life
pub mod Quiet
pub mod Delivery
pub mod Chat
pub mod Relay
pub mod Offline
pub mod Arrival
pub mod Handover
pub mod Leftover
pub mod Presence
pub mod Publishing
pub mod Loading
pub mod Replicas
pub mod QuietOps
pub mod Sessions
pub mod Events
pub mod Reads
pub mod Run
pub mod Counting
