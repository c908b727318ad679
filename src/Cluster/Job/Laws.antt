-- ===== src/Cluster/Job/Laws.antt =====
-- The Secret of identityservercluster_reconciler.go with the cluster.xml, and its readers; the Job, and
-- the watch on its pods.
use curity_operator.Prelude.{
  ℕ, String, ◌≡◌, refl, true, not, ◌&&◌, some, List, [], ◌∷◌, arith, is_empty,
}
use curity_operator.Kube.{Pod, ObjectMeta}
use curity_operator.Predicates.{has_component, bytes_equal, is_cluster_config_pod, pod_object}
use curity_operator.Resources.{IdentityServerCluster}
use curity_operator.Cluster.Job.{
  is_cluster_config_ready, build_cluster_config_secret, build_cluster_config_job,
}
use curity_operator.Cluster.Wakes.{find_cluster_for_job_pod}

bytes_same : (bytes : List ℕ) → bytes_equal bytes bytes ≡ true
bytes_same [] = refl
bytes_same (b ∷ bytes) = ground (arith, bytes_same bytes)

-- The Secret that is built counts as ready exactly where its content is some cluster.xml, which is not
-- the placeholder.
pub build_cluster_config_secret-ready :
    {U : Type 0} (placeholder : List ℕ) (digest : List ℕ → String)
    (cluster : IdentityServerCluster U) (xml : List ℕ) (admin key_hash config_hash : String)
    → is_cluster_config_ready placeholder digest
        (build_cluster_config_secret placeholder digest cluster xml admin key_hash config_hash)
      ≡ (not (is_empty xml) && not (bytes_equal xml placeholder))
unfolding is_cluster_config_ready build_cluster_config_secret
build_cluster_config_secret-ready placeholder digest cluster [] admin key_hash config_hash =
    ground (arith, bytes_same placeholder)
build_cluster_config_secret-ready placeholder digest cluster (x ∷ xml) admin key_hash config_hash =
    refl

-- A pod with the labels of the Job's template passes the watch, and wakes the Job's cluster alone.
pub build_cluster_config_job-wakes :
    {U : Type 0} (short_hash : String → String → String) (cluster : IdentityServerCluster U)
    (admin hash : String) (port : ℕ) (meta : ObjectMeta) (pod : Pod)
    → pod.labels ≡ (build_cluster_config_job short_hash cluster admin hash port).pod_labels
    → (is_cluster_config_pod (some (pod_object meta pod)) ≡ true)
      × (find_cluster_for_job_pod cluster.namespace pod ≡ (cluster.namespace, cluster.name) ∷ [])
unfolding build_cluster_config_job is_cluster_config_pod find_cluster_for_job_pod has_component
build_cluster_config_job-wakes short_hash cluster admin hash port meta pod e =
    (rw e refl, rw e refl)
