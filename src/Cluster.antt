-- ===== src/Cluster.antt =====
-- identityservercluster_reconciler.go: the cluster's configuration, which a Job writes with genclust, and
-- the events that wake a cluster.
pub mod JobPods
pub mod Job
pub mod Wakes
