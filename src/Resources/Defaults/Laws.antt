-- ===== src/Resources/Defaults/Laws.antt =====
-- Filling in the defaults twice changes nothing more, so that an object that was read back is left as
-- it is; and the pod tolerates the two taints (resources.go).
use curity_operator.Prelude.{
  ℕ, String, ◌≡◌, refl, ap, ◌∙◌, Bool, true, ◌||◌, Option, none, some, List, [], ◌∷◌, ◌++◌, map,
  append-nil, arith, any, All, any-append, All-imp,
}
use curity_operator.Resources.{
  Container, ContainerPort, Probe, HttpGetAction, Lifecycle, LifecycleHandler, PodSecurityContext,
  Toleration,
}
use curity_operator.Resources.Resolve.{or_text, prefer, default_pull_policy}
use curity_operator.Resources.Defaults.{
  or_number, default_port, default_scheme, default_handler, default_probe, default_lifecycle,
  apply_container_defaults, apply_container_defaults_all, merge_pod_security_context,
  default_taints, default_toleration, missing_tolerations, merge_default_tolerations, context_of,
}

or_text-or_text : (s d : String) → or_text (or_text s d) d ≡ or_text s d
or_text-or_text s d = ground arith

or_number-or_number : (n d : ℕ) → or_number (or_number n d) d ≡ or_number n d
or_number-or_number n d = ground arith

default_port-default_port : (p : ContainerPort) → default_port (default_port p) ≡ default_port p
default_port-default_port p = λ i. record {
  name = p.name;
  container_port = p.container_port;
  protocol = or_text-or_text p.protocol "TCP" i;
}

default_ports :
    (ps : List ContainerPort) → map default_port (map default_port ps) ≡ map default_port ps
default_ports [] = refl
default_ports (p ∷ ps) = λ i. default_port-default_port p i ∷ default_ports ps i

default_scheme-default_scheme :
    (g : Option HttpGetAction) → default_scheme (default_scheme g) ≡ default_scheme g
default_scheme-default_scheme none = refl
default_scheme-default_scheme (some g) =
    λ i. some (record { path = g.path; port = g.port; scheme = or_text-or_text g.scheme "HTTP" i })

prefer-prefer : {A : Type 0} (o d : Option A) → prefer (prefer o d) d ≡ prefer o d
prefer-prefer none none = refl
prefer-prefer none (some d) = refl
prefer-prefer (some a) d = refl

module _ {U : Type 0} where
  default_probe-default_probe :
      (p : Option (Probe U)) → default_probe (default_probe p) ≡ default_probe p
  unfolding default_probe
  default_probe-default_probe none = refl
  default_probe-default_probe (some p) = λ i. some (record {
    http_get = default_scheme-default_scheme p.http_get i;
    initial_delay_seconds = p.initial_delay_seconds;
    period_seconds = or_number-or_number p.period_seconds 10 i;
    timeout_seconds = or_number-or_number p.timeout_seconds 1 i;
    failure_threshold = or_number-or_number p.failure_threshold 3 i;
    success_threshold = or_number-or_number p.success_threshold 1 i;
    rest = p.rest;
  })

  default_handler-default_handler :
      (h : Option (LifecycleHandler U)) → default_handler (default_handler h) ≡ default_handler h
  default_handler-default_handler none = refl
  default_handler-default_handler (some h) =
      λ i. some (record { http_get = default_scheme-default_scheme h.http_get i; rest = h.rest })

  default_lifecycle-default_lifecycle :
      (l : Option (Lifecycle U)) → default_lifecycle (default_lifecycle l) ≡ default_lifecycle l
  unfolding default_lifecycle
  default_lifecycle-default_lifecycle none = refl
  default_lifecycle-default_lifecycle (some l) = λ i. some (record {
    post_start = default_handler-default_handler l.post_start i;
    pre_stop = default_handler-default_handler l.pre_stop i;
  })

  apply_container_defaults-twice :
      (c : Container U)
      → apply_container_defaults (apply_container_defaults c) ≡ apply_container_defaults c
  unfolding apply_container_defaults
  apply_container_defaults-twice c = λ i. record {
    name = c.name;
    image = c.image;
    image_pull_policy = or_text-or_text c.image_pull_policy (default_pull_policy c.image) i;
    command = c.command;
    args = c.args;
    ports = default_ports c.ports i;
    env = c.env;
    env_from = c.env_from;
    resources = c.resources;
    volume_mounts = c.volume_mounts;
    liveness_probe = default_probe-default_probe c.liveness_probe i;
    readiness_probe = default_probe-default_probe c.readiness_probe i;
    startup_probe = default_probe-default_probe c.startup_probe i;
    lifecycle = default_lifecycle-default_lifecycle c.lifecycle i;
    termination_message_path = or_text-or_text c.termination_message_path "/dev/termination-log" i;
    termination_message_policy = or_text-or_text c.termination_message_policy "File" i;
    security_context = c.security_context;
    rest = c.rest;
  }

  -- Filling in the defaults of containers that have been through it changes nothing.
  pub apply_container_defaults_all-twice :
      (cs : List (Container U))
      → apply_container_defaults_all (apply_container_defaults_all cs)
        ≡ apply_container_defaults_all cs
  unfolding apply_container_defaults_all
  apply_container_defaults_all-twice [] = refl
  apply_container_defaults_all-twice (c ∷ cs) =
      λ i. apply_container_defaults-twice c i ∷ apply_container_defaults_all-twice cs i

  -- The security context of a pod is stable in the same way.
  pub merge_pod_security_context-twice :
      (user : Option (PodSecurityContext U))
      → merge_pod_security_context (some (merge_pod_security_context user))
        ≡ merge_pod_security_context user
  unfolding merge_pod_security_context
  merge_pod_security_context-twice user = λ i. record {
    run_as_user = prefer-prefer (context_of user).run_as_user (some 10001) i;
    run_as_group = prefer-prefer (context_of user).run_as_group (some 10000) i;
    fs_group = prefer-prefer (context_of user).fs_group (some 10000) i;
    rest = (context_of user).rest;
  }

module _ (tolerates_taint : Toleration → String → Bool) (seconds : ℕ)
    (exists_tolerates : (key : String)
      → tolerates_taint (default_toleration tolerates_taint seconds key) key ≡ true) where
  -- Some toleration of the list tolerates the taint.
  abbrev pub Tolerated : List Toleration → String → Type 0
  Tolerated ts key = any (λ t. tolerates_taint t key) ts ≡ true

  abbrev merged : List Toleration → List Toleration
  merged user = merge_default_tolerations tolerates_taint seconds user

  missing_one :
      (user : List Toleration) (taints : List String)
      → All
          (λ key.
            (any (λ t. tolerates_taint t key) user
              || any
                  (λ t. tolerates_taint t key)
                  (missing_tolerations tolerates_taint seconds user taints))
            ≡ true)
          taints
  missing_one user [] = tt
  missing_one user (key ∷ taints) = (
    ground (arith, exists_tolerates key),
    All-imp
        (λ k.
          (any (λ t. tolerates_taint t k) user
            || any (λ t. tolerates_taint t k)
                (missing_tolerations tolerates_taint seconds user taints))
          ≡ true)
        (λ k h. ground (arith, h)) taints (missing_one user taints),
  )

  -- The default taints are tolerated after the merge.
  merged-Tolerated : (user : List Toleration) → All (Tolerated (merged user)) default_taints
  unfolding merge_default_tolerations
  merged-Tolerated user =
      let missing = missing_tolerations tolerates_taint seconds user default_taints in
      All-imp
        (λ k.
          (any (λ t. tolerates_taint t k) user || any (λ t. tolerates_taint t k) missing) ≡ true)
        (λ k h. any-append (λ t. tolerates_taint t k) user missing ∙ h) default_taints
        (missing_one user default_taints)

  none_missing :
      (ts : List Toleration) (taints : List String)
      → All (Tolerated ts) taints
      → missing_tolerations tolerates_taint seconds ts taints ≡ []
  none_missing ts [] h = refl
  none_missing ts (key ∷ taints) h = rw h.0 (none_missing ts taints h.1)

  -- Where a toleration that exists for a key tolerates the key's taint, the merged tolerations begin
  -- with the user's, tolerate both default taints, and another merge adds nothing.
  pub merge_default_tolerations-tolerates :
      (user : List Toleration)
      → ((added : List Toleration) × (merged user ≡ user ++ added))
        × All (Tolerated (merged user)) default_taints
        × (merged (merged user) ≡ merged user)
  unfolding merge_default_tolerations
  merge_default_tolerations-tolerates user = (
    (missing_tolerations tolerates_taint seconds user default_taints, refl),
    merged-Tolerated user,
    ap (λ z. merged user ++ z) (none_missing (merged user) default_taints (merged-Tolerated user))
        ∙ append-nil (merged user),
  )
