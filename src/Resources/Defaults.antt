-- ===== src/Resources/Defaults.antt =====
-- resources.go: the fields that the operator fills in the way the API server would, so that the objects it
-- builds do not differ from the stored ones: applyContainerDefaults, mergePodSecurityContext,
-- mergeDefaultTolerations, and the probes of the main container.
pub mod Laws
pub mod Filled
use curity_operator.Prelude.{
  ℕ, ◌+◌, ◌-◌, String, Bool, Option, none, some, List, [], ◌∷◌, ◌++◌, map, nat_eq, if◌then◌else◌,
  any,
}
use curity_operator.Resources.{
  Container, ContainerPort, Probe, HttpGetAction, Lifecycle, LifecycleHandler, PodSecurityContext,
  Toleration, ProbeConfig, ProbeSpec, number,
}
use curity_operator.Resources.Resolve.{or_text, prefer, default_pull_policy}

abbrev pub or_number : ℕ → ℕ → ℕ
or_number n default = if nat_eq n 0 then default else n

abbrev default_port : ContainerPort → ContainerPort
default_port p = record {
  name = p.name;
  container_port = p.container_port;
  protocol = or_text p.protocol "TCP";
}

abbrev default_scheme : Option HttpGetAction → Option HttpGetAction
default_scheme none = none
default_scheme (some g) =
    some (record { path = g.path; port = g.port; scheme = or_text g.scheme "HTTP" })

abbrev given_or : Option ℕ → ℕ → ℕ
given_or none n = n
given_or (some m) n = m

abbrev liveness_of : Option ProbeSpec → Option ProbeConfig
liveness_of none = none
liveness_of (some probes) = probes.liveness

abbrev readiness_of : Option ProbeSpec → Option ProbeConfig
readiness_of none = none
readiness_of (some probes) = probes.readiness

module _ {U : Type 0} where
  unfoldable pub default_probe : Option (Probe U) → Option (Probe U)
  default_probe none = none
  default_probe (some p) = some (record {
    http_get = default_scheme p.http_get;
    initial_delay_seconds = p.initial_delay_seconds;
    period_seconds = or_number p.period_seconds 10;
    timeout_seconds = or_number p.timeout_seconds 1;
    failure_threshold = or_number p.failure_threshold 3;
    success_threshold = or_number p.success_threshold 1;
    rest = p.rest;
  })

  abbrev default_handler : Option (LifecycleHandler U) → Option (LifecycleHandler U)
  default_handler none = none
  default_handler (some h) = some (record { http_get = default_scheme h.http_get; rest = h.rest })

  unfoldable pub default_lifecycle : Option (Lifecycle U) → Option (Lifecycle U)
  default_lifecycle none = none
  default_lifecycle (some l) =
      some (record {
        post_start = default_handler l.post_start;
        pre_stop = default_handler l.pre_stop;
      })

  unfoldable pub apply_container_defaults : Container U → Container U
  apply_container_defaults c = record {
    name = c.name;
    image = c.image;
    image_pull_policy = or_text c.image_pull_policy (default_pull_policy c.image);
    command = c.command;
    args = c.args;
    ports = map default_port c.ports;
    env = c.env;
    env_from = c.env_from;
    resources = c.resources;
    volume_mounts = c.volume_mounts;
    liveness_probe = default_probe c.liveness_probe;
    readiness_probe = default_probe c.readiness_probe;
    startup_probe = default_probe c.startup_probe;
    lifecycle = default_lifecycle c.lifecycle;
    termination_message_path = or_text c.termination_message_path "/dev/termination-log";
    termination_message_policy = or_text c.termination_message_policy "File";
    security_context = c.security_context;
    rest = c.rest;
  }

  unfoldable pub apply_container_defaults_all : List (Container U) → List (Container U)
  apply_container_defaults_all cs = map apply_container_defaults cs

  abbrev context_of : Option (PodSecurityContext U) → PodSecurityContext U
  context_of none = record { run_as_user = none; run_as_group = none; fs_group = none; rest = none }
  context_of (some c) = c

  unfoldable pub merge_pod_security_context : Option (PodSecurityContext U) → PodSecurityContext U
  merge_pod_security_context user = record {
    run_as_user = prefer (context_of user).run_as_user (some 10001);
    run_as_group = prefer (context_of user).run_as_group (some 10000);
    fs_group = prefer (context_of user).fs_group (some 10000);
    rest = (context_of user).rest;
  }

  -- The probe that both builders start from; IntOrString 4465 is the port of the health check.
  abbrev base_probe : Probe U
  base_probe = record {
    http_get = some (record { path = "/"; port = number 4465; scheme = "HTTP" });
    initial_delay_seconds = 30;
    period_seconds = 10;
    timeout_seconds = 1;
    failure_threshold = 3;
    success_threshold = 1;
    rest = none;
  }

  unfoldable pub apply_probe_config : Probe U → Option ProbeConfig → Probe U
  apply_probe_config p none = p
  apply_probe_config p (some c) = record {
    http_get = p.http_get;
    initial_delay_seconds = given_or c.initial_delay_seconds p.initial_delay_seconds;
    period_seconds = given_or c.period_seconds p.period_seconds;
    timeout_seconds = given_or c.timeout_seconds p.timeout_seconds;
    failure_threshold = given_or c.failure_threshold p.failure_threshold;
    success_threshold = given_or c.success_threshold p.success_threshold;
    rest = p.rest;
  }

  abbrev pinned : Probe U → Probe U
  pinned p = record {
    http_get = p.http_get;
    initial_delay_seconds = p.initial_delay_seconds;
    period_seconds = p.period_seconds;
    timeout_seconds = p.timeout_seconds;
    failure_threshold = p.failure_threshold;
    success_threshold = 1;
    rest = p.rest;
  }

  unfoldable pub build_liveness_probe : Option ProbeSpec → Probe U
  build_liveness_probe probes = pinned (apply_probe_config base_probe (liveness_of probes))

  unfoldable pub build_readiness_probe : Option ProbeSpec → Probe U
  build_readiness_probe probes = apply_probe_config base_probe (readiness_of probes)

-- The two taints, both NoExecute.
abbrev pub default_taints : List String
default_taints = "node.kubernetes.io/not-ready" ∷ "node.kubernetes.io/unreachable" ∷ []

-- `tolerates_taint` is Toleration.ToleratesTaint of k8s.io/api for a NoExecute taint of a key.
module _ (tolerates_taint : Toleration → String → Bool) (default_toleration_seconds : ℕ) where
  abbrev pub default_toleration : String → Toleration
  default_toleration key = record {
    key = key;
    operator = "Exists";
    effect = "NoExecute";
    toleration_seconds = some default_toleration_seconds;
  }

  abbrev missing_tolerations : List Toleration → List String → List Toleration
  missing_tolerations user [] = []
  missing_tolerations user (key ∷ taints) =
      let rest = missing_tolerations user taints in
      if any (λ t. tolerates_taint t key) user then rest else default_toleration key ∷ rest

  unfoldable pub merge_default_tolerations : List Toleration → List Toleration
  merge_default_tolerations user = user ++ missing_tolerations user default_taints
