-- ===== src/Keystone/Controller.antt =====
-- The worker of pkg/identity/keystone/keystone.go, which reads the policies and the sync configuration from
-- config maps.
pub mod Budget
pub mod Rounds
pub mod Unreadable
use cpo.Base.{
  ℕ, zero, suc, ◌==◌, Bool, true, false, ◌&&◌, ◌||◌, Option, none, some, List, [], Str, str,
  if◌then◌else◌, ltb, nat_eq, list_eq,
}
use cpo.Exec.{Result, ok, err}
use cpo.Maps.{Map, get}
use cpo.Keystone.Handler.{Auth}
use cpo.Keystone.Policy.{Policy}
use cpo.Keystone.Sync.Config.{SyncConfig, new_sync_config}

pub data FetchError : Type 0 where
  missing failed : FetchError

-- The work queue and the lister of client-go, and the decoding of the texts of a config map.
pub record Worker : Type 1 where
  pub State : Type 0
  -- `queue.Get`: `none` where the queue is shut down
  pub next : State → Option Str × State
  pub finish : Str → State → State
  pub forget : Str → State → State
  pub add : Str → State → State
  pub add_rate_limited : Str → State → State
  pub num_requeues : Str → State → ℕ
  -- the data of a config map, by namespace and name
  pub config_map : Str → Str → State → Result FetchError (Map Str) × State
  -- `cache.SplitMetaNamespaceKey`
  pub split_key : Str → Option (Str × Str)
  -- the value that a decoder leaves, also where it fails
  pub policies_of : Str → List Policy
  pub sync_config_of : SyncConfig → Str → SyncConfig

pub record ConfigNames : Type 0 where
  pub policy_config_map : Str
  pub sync_config_map : Str

abbrev pub max_retries : ℕ
max_retries = 5

abbrev pub or_empty : Option Str → Str
or_empty none = []
or_empty (some s) = s

module _ (W : Worker) (names : ConfigNames) where
  -- The key of an object, `none` where it has none.
  unfoldable pub enqueue_config_map : Option Str → W.State → W.State
  enqueue_config_map none s = s
  enqueue_config_map (some key) s = elim (W.split_key key) [
    | none ↦ s
    | some (namespace, name) ↦
        if namespace == str "kube-system"
          && (name == names.policy_config_map || name == names.sync_config_map)
        then W.add key s
        else s
  ]

  unfoldable pub update_policies : Map Str → Auth → Auth
  update_policies cm a = record a { policies = W.policies_of (or_empty (get cm (str "policies"))) }

  unfoldable pub update_sync_config : Map Str → Auth → Auth
  update_sync_config cm a = record a {
    sync_config = some (W.sync_config_of new_sync_config (or_empty (get cm (str "syncConfig"))));
  }

  abbrev pub if_named : Bool → (Auth → Auth) → Auth → Auth
  if_named true f a = f a
  if_named false f a = a

  -- `true` is a nil error.
  unfoldable pub apply_config_map : Str → Result FetchError (Map Str) → Auth → Bool × Auth
  apply_config_map name (err missing) a = (
    true,
    if_named (name == names.sync_config_map) (λ a. record a { sync_config = some new_sync_config })
        (if_named (name == names.policy_config_map) (λ a. record a { policies = [] }) a),
  )
  apply_config_map name (err failed) a = (false, a)
  apply_config_map name (ok cm) a = (
    true,
    if_named (name == names.sync_config_map) (update_sync_config cm)
        (if_named (name == names.policy_config_map) (update_policies cm) a),
  )

  abbrev pub process_split : Option (Str × Str) → Auth → W.State → Bool × (Auth × W.State)
  process_split none a s = (false, (a, s))
  process_split (some (namespace, name)) a s =
      let (r, s') = W.config_map namespace name s in
      let (fine, a') = apply_config_map name r a in (fine, (a', s'))

  unfoldable pub process_item : Str → Auth → W.State → Bool × (Auth × W.State)
  process_item key a s = process_split (W.split_key key) a s

  -- What becomes of the key; in the end it is marked as done.
  abbrev pub after_item : Bool → Str → W.State → W.State
  after_item true key s = W.forget key s
  after_item false key s =
      if ltb (W.num_requeues key s) max_retries then W.add_rate_limited key s else W.forget key s

  -- `false` where the queue is shut down.
  abbrev pub process_next : Option Str → Auth → W.State → Bool × (Auth × W.State)
  process_next none a s = (false, (a, s))
  process_next (some key) a s =
      let (fine, (a', s')) = process_item key a s in
      (true, (a', W.finish key (after_item fine key s')))

  unfoldable pub process_next_item : Auth → W.State → Bool × (Auth × W.State)
  process_next_item a s = let (key, s') = W.next s in process_next key a s'

  -- Some rounds of `runWorker`.
  unfoldable pub rounds : ℕ → Auth → W.State → Auth × W.State
  rounds zero a s = (a, s)
  rounds (suc n) a s = let (_, (a', s')) = process_next_item a s in rounds n a' s'
