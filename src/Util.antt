-- ===== src/Util.antt =====
-- pkg/util/util.go
pub mod Names
pub mod Annotation
pub mod HealthCheck
pub mod Session
pub mod Port
pub mod Class
pub mod Selected
pub mod Bounds
pub mod Asked
