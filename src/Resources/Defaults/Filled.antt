-- ===== src/Resources/Defaults/Filled.antt =====
-- What the API server would make of a container, as a relation, and applyContainerDefaults of resources.go.
use curity_operator.Prelude.{ℕ, String, ◌≡◌, ◌≢◌, Option, none, some, List, [], ◌∷◌}
use curity_operator.Resources.{
  Container, ContainerPort, Probe, HttpGetAction, Lifecycle, LifecycleHandler,
}
use curity_operator.Resources.Resolve.{default_pull_policy}

-- A text that is given stays, and one that is not is the default.
abbrev pub FillsText : String → String → String → Type 0
FillsText default given result = (given ≢ "" → result ≡ given) × (given ≡ "" → result ≡ default)

abbrev pub FillsNumber : ℕ → ℕ → ℕ → Type 0
FillsNumber default given result = (given ≢ 0 → result ≡ given) × (given ≡ 0 → result ≡ default)

-- Both are there and related, or neither is there.
abbrev pub Both : {A : Type 0} → (A → A → Type 0) → Option A → Option A → Type 0
Both R none none = Unit
Both R none (some b) = ⊥
Both R (some a) none = ⊥
Both R (some a) (some b) = R a b

-- As many, and related one by one.
abbrev pub Pairwise : {A : Type 0} → (A → A → Type 0) → List A → List A → Type 0
Pairwise R [] [] = Unit
Pairwise R [] (b ∷ bs) = ⊥
Pairwise R (a ∷ rest) [] = ⊥
Pairwise R (a ∷ rest) (b ∷ bs) = R a b × Pairwise R rest bs

abbrev pub FillsPort : ContainerPort → ContainerPort → Type 0
FillsPort p q =
    (q.name ≡ p.name)
    × (q.container_port ≡ p.container_port)
    × FillsText "TCP" p.protocol q.protocol

abbrev pub FillsAction : HttpGetAction → HttpGetAction → Type 0
FillsAction g h = (h.path ≡ g.path) × (h.port ≡ g.port) × FillsText "HTTP" g.scheme h.scheme

module _ {U : Type 0} where
  abbrev pub FillsProbe : Probe U → Probe U → Type 0
  FillsProbe p q =
      Both FillsAction p.http_get q.http_get
      × (q.initial_delay_seconds ≡ p.initial_delay_seconds)
      × FillsNumber 10 p.period_seconds q.period_seconds
      × FillsNumber 1 p.timeout_seconds q.timeout_seconds
      × FillsNumber 3 p.failure_threshold q.failure_threshold
      × FillsNumber 1 p.success_threshold q.success_threshold
      × (q.rest ≡ p.rest)

  abbrev pub FillsHandler : LifecycleHandler U → LifecycleHandler U → Type 0
  FillsHandler h k = Both FillsAction h.http_get k.http_get × (k.rest ≡ h.rest)

  abbrev pub FillsLifecycle : Lifecycle U → Lifecycle U → Type 0
  FillsLifecycle l k =
      Both FillsHandler l.post_start k.post_start × Both FillsHandler l.pre_stop k.pre_stop

  -- The container `d` is `c` with the defaults of Kubernetes where `c` says nothing.
  pub record IsDefaulted (c : Container U) (d : Container U) : Type 0 where
    pub name : d.name ≡ c.name
    pub image : d.image ≡ c.image
    pub command : d.command ≡ c.command
    pub args : d.args ≡ c.args
    pub env : d.env ≡ c.env
    pub env_from : d.env_from ≡ c.env_from
    pub resources : d.resources ≡ c.resources
    pub volume_mounts : d.volume_mounts ≡ c.volume_mounts
    pub security_context : d.security_context ≡ c.security_context
    pub rest : d.rest ≡ c.rest
    pub pull_policy :
        FillsText (default_pull_policy c.image) c.image_pull_policy d.image_pull_policy
    pub message_path :
        FillsText "/dev/termination-log" c.termination_message_path d.termination_message_path
    pub message_policy : FillsText "File" c.termination_message_policy d.termination_message_policy
    pub ports : Pairwise FillsPort c.ports d.ports
    pub liveness : Both FillsProbe c.liveness_probe d.liveness_probe
    pub readiness : Both FillsProbe c.readiness_probe d.readiness_probe
    pub startup : Both FillsProbe c.startup_probe d.startup_probe
    pub hooks : Both FillsLifecycle c.lifecycle d.lifecycle
