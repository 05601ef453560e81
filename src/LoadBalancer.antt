-- ===== src/LoadBalancer.antt =====
-- pkg/loadbalancer/loadbalancer.go
pub mod Types
pub mod Program
pub mod Every
pub mod Client
pub mod Lifecycle
pub mod ListenerDetails
pub mod Listeners
pub mod Policies
pub mod BackendSets
pub mod Wait
pub mod History
pub mod Cache
pub mod Fresh
pub mod Etags
pub mod Guarded
pub mod Retried
pub mod Conflict
pub mod Backends
