-- ===== src/Manager.antt =====
-- internal/resource/manager.go: annotations written to resources through the API. A function that
-- calls the API takes the cluster and returns it; the waits between two attempts change nothing.
pub mod Retry
pub mod Groups
pub mod Legacy
pub mod Updates
pub mod Results
pub mod Discovery
pub mod Annotations
