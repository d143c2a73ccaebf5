-- ===== src/System.antt =====
-- src/worker.cpp and src/notifier.cpp together: what the node publishes, as the notifier reads it.
pub mod Tokens
pub mod Notices
