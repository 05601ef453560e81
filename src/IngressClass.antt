-- ===== src/IngressClass.antt =====
-- pkg/controllers/ingressclass
pub mod Tags
pub mod Kept
pub mod Reconcile
pub mod Protected
