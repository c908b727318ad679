-- ===== src/Lib.antt =====
-- A model of the decisions of the Kubernetes operator for the Curity Identity Server, and proofs about
-- it. The operator watches IdentityServerCluster and IdentityServerNode objects, writes a Deployment for
-- each node, and reports what it sees as status conditions. Its reconcilers are loops around functions
-- of values: those functions are modelled here, with the API server's answers as arguments.
--
-- The parts of the program and the files that model them:
--
-- Prelude      Go's texts, integers, sorts and loops over slices, and the lemmas that the parts share.
-- Api, Kube    The types and constants of api/v1alpha1/common_types.go; the Kubernetes objects that the
--              operator reads, with the fields that it uses. ApiMeta is the interface to the functions on
--              condition lists of k8s.io/apimachinery, with the laws that they document.
-- Conditions   internal/controller/conditions.go. Deployment is computeNodeConditions, Nodes is
--              computeClusterConditions with the aggregations that it calls, Set is setCondition and the
--              Ready overlay of the node reconciler.
-- Packages     internal/controller/packages.go and packages_status.go. Refs lists the Secrets of a
--              package, Check verifies them before a Deployment is written, Volumes, Env and Script are
--              what a pod gets for its packages, and Status reads back from the pods whether the packages
--              have arrived.
-- Config       internal/controller/config_discovery.go. Scope decides which clusters a managed config is
--              for, Kinds where it is mounted, Discover collects the configs of a cluster, Duplicates and
--              Logging find the conflicts among them.
-- Permanent    internal/controller/permanent_error.go: what is reported where a write is rejected for good.
-- Predicates   internal/controller/predicates.go: which events wake which reconciler. Containers compares the
--              statuses of a pod's containers, SecretData the data of a Secret, Watches has the predicates.
-- Resources    internal/controller/resources.go: the Kubernetes objects of a node. Resolve is what a node
--              takes from its cluster, Labels, Naming, Env, Volumes, Defaults and Ports are parts of the
--              pod, Pod is the Deployment, Objects the others, Conflicts the names of containers.
-- Database     internal/controller/identityserverdatabase_reconciler.go. Connection checks and hashes the
--              Secrets of a connection, Pods says why a Job's pod does not start, Status shows the Job in
--              the conditions, Template is the Job that is created, Reconcile is one reconciliation: its
--              result is the status, the requeue, the error and the calls that were made.
-- Cluster      Parts of internal/controller/identityservercluster_reconciler.go, and
--              managed_config_handler.go: Job is the genclust Job and the Secret that its result goes to,
--              JobPods is what the pods of the Job say of a failure, Wakes maps objects to clusters.
-- Messages     The shortening of termination messages, of identityservercluster_reconciler.go.
-- Failures     internal/controller/node_pod_failure.go: the failures of containers that the conditions of a
--              Deployment do not show.
-- Witnesses    An implementation of ApiMeta, and inputs at which the theorems are applied.
--
-- How the code is read. A function of the code has its name in small letters with underscores. A struct is
-- a record, a nil pointer is an option, a result with an error or an ok flag is a sum or an option. A loop
-- is a recursion on the list that it visits, so every definition ends without fuel, except the digits of a
-- number, whose fuel is above the number. The counts of a Deployment are signed integers (int32 in Go, and
-- no arithmetic is done on them). A Go map is an association list; where the code ranges over one, the
-- order is arbitrary, and the theorems say what does not depend on it. sort.Slice is an insertion sort,
-- which gives the result of any sort where no two elements tie. Texts are native texts, measured in bytes; a
-- Go slice that cuts one inside a character has no model here.
--
-- Parameters: apimachinery's condition lists (Api.ApiMeta), GetControllerOf and IsControlledBy, net/url's
-- host of a URL (Packages.Env), the digests of SHA-256 and of JSON (Config.Kinds, Resources.Naming,
-- Database.Externals), strings.ToLower, ToleratesTaint, controller-runtime's predicate.Funcs, the answers
-- of the API reader (Packages.Check, Config.Scope), of a status update (Permanent) and of every call of a
-- database's reconciliation (Database.World). Fields of Kubernetes types that the operator copies unread
-- (affinity, resources, security contexts of users) have one opaque type U.
--
-- Not modelled: the control flow of the cluster's and the node's reconcilers but for the parts named above,
-- the conversion of keystores,
-- the start of the manager, and code that is generated or that only performs I/O.
mod Prelude
pub mod Api
pub mod Kube
pub mod Conditions
pub mod Packages
pub mod Config
pub mod Permanent
pub mod Messages
pub mod Failures
pub mod Predicates
pub mod Resources
pub mod Cluster
pub mod Database
mod Witnesses
