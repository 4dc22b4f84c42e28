-- ===== src/Keystone/Scenarios/Logins.antt =====
-- A token that is reviewed and a worker that runs: the theorems on the handler and the worker at concrete inputs,
-- and tests.
use cpo.Base.{
  ℕ, ◌≡◌, ◌≤◌, ◌*◌, refl, true, false, Option, none, some, List, [], ◌∷◌, Str, str, length, nat_eq,
  list_eq, ◌==◌, if◌then◌else◌,
}
use cpo.Exec.{ok, err}
use cpo.Sets.Listed.{listed}
use cpo.Keystone.Authenticate.{Token, Identity, user_of, authenticate_token}
use cpo.Keystone.Controller.{
  ConfigNames, apply_config_map, process_item, process_next_item, rounds, update_policies,
  enqueue_config_map,
}
use cpo.Keystone.Controller.Rounds.{worker-ends}
use cpo.Keystone.Controller.Unreadable.{unreadable_policies-deny}
use cpo.Keystone.Handler.{Auth, authenticated, unauthorized, handler, review_token}
use cpo.Keystone.Handler.Synced.{token_review, handler-syncs}
use cpo.Keystone.Policy.{Attributes}
use cpo.Keystone.Scenarios.Queue.{worker, worker_laws, Queue}
use cpo.Keystone.Sync.Cluster.{Cluster, not_found}
use cpo.Keystone.Sync.Config.{new_sync_config, format_namespace_name}
use cpo.Keystone.Sync.Steps.{
  sync_data, sync_types, for_type, sync_project_data, sync_role_assignments_data, after_get,
  delete_stale, create_missing, namespace_of, black_listed,
}
use cpo.Keystone.Webhook.{authorize_token, allowed}
use cpo.Keystone.Webhook.Answers.{body}

-- A cluster whose state is the list of its new namespaces.
abbrev spaces : Cluster
spaces = record {
  State = List Str;
  get_namespace = λ _ s. (err not_found, s);
  create_namespace = λ ns s. (ok tt, ns ∷ s);
  list_role_bindings = λ _ s. (ok [], s);
  delete_role_binding = λ _ _ s. (ok tt, s);
  create_role_binding = λ _ _ s. (ok tt, s);
}

-- The token of a user without a project.
abbrev unscoped : Token
unscoped = record {
  user_id = str "u1";
  user_name = str "alice";
  domain = str "d1";
  domain_name = str "Default";
  project = [];
  project_named = [];
  roles = [];
}

abbrev keystone : Identity
keystone = record {
  cluster = spaces;
  request = λ token s. (if token == [] then none else some token, s);
  decode = λ _. some unscoped;
}

abbrev nobody_reads : Str → Option (List Str)
nobody_reads _ = none

abbrev syncing : Auth
syncing = record { policies = []; sync_config = some new_sync_config; client = true }

handler-syncs_example :
    handler keystone listed nobody_reads syncing (some (token_review (str "t"))) [] ≡ (
      some (authenticated (user_of unscoped)),
      (sync_data spaces true new_sync_config (user_of unscoped) []).1,
    )
handler-syncs_example =
    handler-syncs keystone listed nobody_reads syncing new_sync_config (str "t") (str "t") unscoped
      [] refl refl refl

-- The user without a project gets a namespace without a name.
nameless_namespace : (sync_data spaces true new_sync_config (user_of unscoped) []).1 ≡ [] ∷ []
unfolding sync_data sync_types for_type sync_project_data sync_role_assignments_data after_get
    delete_stale create_missing namespace_of black_listed format_namespace_name
nameless_namespace = refl

refused :
    (handler keystone listed nobody_reads syncing (some (token_review [])) []).0 ≡ some unauthorized
unfolding handler review_token authenticate_token
refused = refl

abbrev names : ConfigNames
names = record { policy_config_map = str "policies"; sync_config_map = str "sync" }

abbrev two_keys : Queue
two_keys = (str "kube-system/bad" ∷ str "kube-system/policies" ∷ [], (refl, (refl, tt)), λ _. 0)

worker-ends_example :
    (n : ℕ) × (n ≤ 6 * length two_keys.0) × ((rounds worker names n syncing two_keys).1.0 ≡ [])
worker-ends_example = worker-ends worker worker_laws names syncing two_keys

-- The key that always fails is taken up six times.
seven_rounds : (rounds worker names 7 syncing two_keys).1.0 ≡ []
unfolding rounds process_next_item process_item apply_config_map update_policies
seven_rounds = refl

six_rounds : (rounds worker names 6 syncing two_keys).1.0 ≡ str "kube-system/bad" ∷ []
unfolding rounds process_next_item process_item apply_config_map update_policies
six_rounds = refl

only_our_maps :
    (enqueue_config_map worker names (some (str "kube-system/other")) two_keys).0 ≡ two_keys.0
unfolding enqueue_config_map
only_our_maps = refl

abbrev get_pods : Attributes
get_pods = record {
  user = record { name = str "alice"; uid = []; groups = []; extra = [] };
  verb = str "get";
  namespace = str "default";
  api_group = [];
  resource = str "pods";
  path = [];
  resource_request = true;
}

unreadable_policies-deny_example :
    ((process_item worker names (str "kube-system/policies") syncing two_keys).0 ≡ true)
    × (authorize_token listed nobody_reads
          (process_item worker names (str "kube-system/policies") syncing two_keys).1.0.policies
          (body listed nobody_reads get_pods)
        ≡ some (allowed false))
unreadable_policies-deny_example =
    unreadable_policies-deny worker names listed nobody_reads (str "kube-system/policies")
      (str "kube-system") syncing two_keys ((str "policies", str "[") ∷ []) get_pods refl refl refl
      refl tt
