-- ===== src/Witnesses/Packages.antt =====
-- Inputs for the theorems on packages: a package with TLS material and basic authentication, the
-- Secrets that it refers to, and the pods of two ReplicaSets.
use curity_operator.Prelude.{
  ℕ, String, ◌≡◌, refl, sym, subst, ◌↔◌, true, false, not, none, some, List, [], ◌∷◌, ◌++◌, Permᴰ,
  Memᴰ, arith, ◌==◌, if◌then◌else◌, is_some, any, select, is_empty, All, itoa, DistinctBy,
  scan_digits,
}
use curity_operator.Prelude.Int.{pos}
use curity_operator.Api.{reason_package_http_error, reason_package_image_pull_failed}
use curity_operator.Kube.{Map, Secret, Pod, ContainerStatus, ContainerState}
use curity_operator.Packages.{package_init_container_name, PackageSpec}
use curity_operator.Packages.Refs.{
  package_secret_names, package_references_secret, package_secret_key_refs,
}
use curity_operator.Packages.Refs.Names.{package_secret_names-references}
use curity_operator.Packages.Volumes.{build_package_tls_volume}
use curity_operator.Packages.Needs.{required_keys, volume_keys, env_keys, required_keys-given}
use curity_operator.Packages.Env.{build_package_init_env}
use curity_operator.Packages.Script.{
  build_package_download_script, build_package_download_script-shape,
}
use curity_operator.Packages.Check.{found, not_found, Reader, check_package_secrets}
use curity_operator.Packages.Check.Sound.{check_package_secrets-passes, Resolves}
use curity_operator.Packages.Status.Classify.{
  classify_init_container, classify_terminated_state, classify_waiting_state, classify_exit,
  is_recoverable_reason, classify_init_container-recoverable,
}
use curity_operator.Packages.Status.Replicas.{
  Group, group_pods, add_pod, filed_under, controller_replica_set_uid, pick_winner, pods_of,
  current_replica_set_pods, pods_matching_packages_hash,
}
use curity_operator.Packages.Status.Replicas.Grouping.{is_filed_under}
use curity_operator.Packages.Status.Replicas.Winner.{
  current_replica_set_pods_of_perm, current_replica_set_pods-newest, is_behind,
}
use curity_operator.Packages.Status.Index.{parse_package_fetch_index, scan_int, scan_positive}
use curity_operator.Packages.Status.Index.RoundTrip.{
  parse_package_fetch_index-package_init_container_name,
}
use curity_operator.Packages.Status.Translate.{translate_packages_ready}
use curity_operator.Packages.Status.Translate.Verdict.{
  judge, fetches, translate_packages_ready-judge,
}

abbrev package_of : String → PackageSpec
package_of url = record {
  url = url;
  tls = some (record {
    enabled = true;
    skip_verify = false;
    ca = some (record { name = "ca"; key = "ca.pem" });
    client_cert = none;
  });
  auth = some (record {
    basic_auth = some (record { name = "login"; username_key = "user"; password_key = "password" });
    bearer_token = none;
  });
  mount_path = "/opt/plugin";
}

abbrev packages : List PackageSpec
packages = package_of "https://one.example/a.zip" ∷ package_of "https://two.example/b.zip" ∷ []

package_secret_names-references_example :
    DistinctBy (λ x. x) (package_secret_names packages)
    × ((name : String)
        → any (λ n. n == name) (package_secret_names packages)
          ≡ package_references_secret packages name)
package_secret_names-references_example = package_secret_names-references packages

build_package_download_script-shape_example :
    build_package_download_script (package_of "https://one.example/a.zip") 0
    ≡ build_package_download_script (package_of "\"; rm -rf /") 0
build_package_download_script-shape_example =
    build_package_download_script-shape (package_of "https://one.example/a.zip")
      (package_of "\"; rm -rf /") 0 refl refl

abbrev secret : String → Map (List ℕ) → Secret
secret name contents = record {
  name = name;
  resource_version = "1";
  secret_type = "Opaque";
  labels = [];
  annotations = [];
  secret_data = contents;
}

abbrev reader : Reader
reader namespace name =
    if name == "ca"
    then found (secret "ca" (("ca.pem", []) ∷ []))
    else if name == "login"
    then found (secret "login" (("user", []) ∷ ("password", []) ∷ []))
    else not_found

check_package_secrets-passes_example :
    (check_package_secrets reader "default" packages ≡ ("", "", none))
    ↔ All (λ p. All (Resolves reader "default") (package_secret_key_refs p)) packages
check_package_secrets-passes_example = check_package_secrets-passes reader "default" packages

abbrev no_state : ContainerState
no_state = record { waiting = none; running = false; terminated = none }

abbrev exit_with : ℕ → ContainerState
exit_with code = record {
  waiting = none;
  running = false;
  terminated = some (record { exit_code = pos code; reason = "Error"; message = "" });
}

abbrev fetch : ℕ → ContainerStatus
fetch code = record {
  name = "package-fetch-0";
  image = "alpine";
  restart_count = pos 0;
  state = exit_with code;
  last_termination_state = no_state;
}

fails_with_22 :
    classify_init_container (fetch 22)
    ≡ some (reason_package_http_error, "exited 22 (HTTP 4xx/5xx)")
unfolding classify_init_container classify_terminated_state classify_waiting_state classify_exit
    itoa
fails_with_22 = refl

classify_init_container-recoverable_example :
    is_recoverable_reason reason_package_http_error
    ≡ not (reason_package_http_error == reason_package_image_pull_failed)
classify_init_container-recoverable_example =
    classify_init_container-recoverable (fetch 22) reason_package_http_error
      "exited 22 (HTTP 4xx/5xx)" fails_with_22

abbrev pod : String → ℕ → String → ℕ → Pod
pod name created uid code = record {
  name = name;
  creation_timestamp = created;
  deletion_timestamp = none;
  labels = [];
  annotations = ("curity.io/packages-hash", "abc") ∷ [];
  owner_references = record { kind = "ReplicaSet"; uid = uid; controller = some true } ∷ [];
  phase = "Pending";
  conditions = [];
  init_container_statuses = fetch code ∷ [];
  container_statuses = [];
}

abbrev pods : List Pod
pods = pod "a" 10 "old" 22 ∷ pod "b" 20 "new" 0 ∷ []

abbrev group : String → Pod → ℕ → Group
group uid p newest = record { pods = p ∷ []; newest = newest; got_uid = uid }

two_groups :
    group_pods [] pods
    ≡ group "old" (pod "a" 10 "old" 22) 10 ∷ group "new" (pod "b" 20 "new" 0) 20 ∷ []
unfolding group_pods add_pod filed_under controller_replica_set_uid
two_groups = refl

current_replica_set_pods_of_perm_example :
    pods_of (
      pick_winner none
        (group "new" (pod "b" 20 "new" 0) 20 ∷ group "old" (pod "a" 10 "old" 22) 10 ∷ []))
    ≡ current_replica_set_pods pods
current_replica_set_pods_of_perm_example =
    current_replica_set_pods_of_perm pods
      (group "new" (pod "b" 20 "new" 0) 20 ∷ group "old" (pod "a" 10 "old" 22) 10 ∷ [])
      (subst
        (λ gs.
          Permᴰ gs
            (group "new" (pod "b" 20 "new" 0) 20 ∷ group "old" (pod "a" 10 "old" 22) 10 ∷ []))
        (sym two_groups) (Permᴰ.swap refl refl))

some_filed : any (λ p. is_some (filed_under p)) pods ≡ true
unfolding filed_under controller_replica_set_uid
some_filed = refl

current_replica_set_pods-newest_example :
    (uid : String) × (current_replica_set_pods pods ≡ select (is_filed_under uid) pods)
    × (is_empty (current_replica_set_pods pods) ≡ false)
    × ((p : Pod) (other : String)
        → Memᴰ p pods
        → filed_under p ≡ some other
        → is_behind pods uid other ≡ false)
current_replica_set_pods-newest_example = current_replica_set_pods-newest pods some_filed

translate_packages_ready-judge_example :
    translate_packages_ready pods "abc" packages
    ≡ judge packages (fetches (current_replica_set_pods (pods_matching_packages_hash pods "abc")))
translate_packages_ready-judge_example = translate_packages_ready-judge pods "abc" packages

required_keys-given_example :
    required_keys (package_secret_key_refs (package_of "https://one.example/a.zip"))
    ≡ volume_keys (build_package_tls_volume (package_of "https://one.example/a.zip") 0)
      ++ env_keys (
          build_package_init_env
            (λ url. some "one.example")
            (package_of "https://one.example/a.zip"))
required_keys-given_example =
    required_keys-given (λ url. some "one.example") (package_of "https://one.example/a.zip") 0

parse_package_fetch_index-package_init_container_name_example :
    parse_package_fetch_index (package_init_container_name 12) ≡ some (pos 12)
parse_package_fetch_index-package_init_container_name_example =
    parse_package_fetch_index-package_init_container_name 12 (omega arith)

-- A suffix that does not start with a number, and a package's name that has none.
no_index :
    (parse_package_fetch_index "package-fetch-x" ≡ none)
    × (parse_package_fetch_index "package-fetch-" ≡ none)
    × (parse_package_fetch_index "package-fetch-7x" ≡ some (pos 7))
unfolding parse_package_fetch_index scan_int scan_positive scan_digits
no_index = (refl, refl, refl)
