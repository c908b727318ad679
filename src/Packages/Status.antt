-- ===== src/Packages/Status.antt =====
-- packages_status.go: what the pods of a node say of its packages (the condition PackagesReady).
pub mod Classify
pub mod Replicas
pub mod Index
pub mod Translate
