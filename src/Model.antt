-- ===== src/Model.antt =====
-- internal/model/types.go: the values that every component shares, and the two types of Go's
-- library that they hold.
pub mod Floats
pub mod Cluster
pub mod Deploy
pub mod Storage
pub mod Work
