-- ===== src/State.antt =====
-- The state of an ingress class, from all its Ingresses (pkg/state/ingressstate.go).
pub mod Types
pub mod Listener
pub mod BackendSet
pub mod Tls
pub mod TlsConfigs
pub mod Policies
pub mod Path
pub mod Build
pub mod Store
