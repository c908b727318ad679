-- ===== src/Conditions.antt =====
-- conditions.go and applyReadyOverlay of identityservernode_reconciler.go: how the status
-- conditions of a node follow from its Deployment, and those of a cluster from its nodes.
pub mod Deployment
pub mod Nodes
pub mod Set
