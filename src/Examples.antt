-- ===== src/Examples.antt =====
-- A small platform and concrete states, on which the theorems are applied.
pub mod Toy
mod Board
mod Nodes
mod Services
mod Lives
mod Clients
mod Talks
mod Programs
mod Replicas
mod Systems
