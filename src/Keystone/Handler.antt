-- ===== src/Keystone/Handler.antt =====
-- `Handler` of pkg/identity/keystone/keystone.go: the reviews of tokens and of requests, and the sync of a user
-- who has logged in.
pub mod Synced
use cpo.Base.{
  ◌==◌, Bool, true, false, not, ◌&&◌, Option, none, some, List, [], ◌∷◌, Str, str, if◌then◌else◌,
  nat_eq, list_eq,
}
use cpo.Exec.{Result, ok, err}
use cpo.Sets.{StringSet}
use cpo.Keystone.Authenticate.{Identity, authenticate_token}
use cpo.Keystone.Policy.{Policy, UserInfo, project_id}
use cpo.Keystone.Sync.Config.{SyncConfig}
use cpo.Keystone.Sync.Steps.{SyncError, panicked, extra_values, sync_data}
use cpo.Keystone.Webhook.{Fields, text_at, object_at, Reply, authorize_token}

-- What `KeystoneAuth` keeps: the policies, the sync configuration and whether the k8s client is set.
pub record Auth : Type 0 where
  pub policies : List Policy
  pub sync_config : Option SyncConfig
  pub client : Bool

-- The response: the status 400, 500, 401, or 200 with a user or with the answer to a review.
pub data Answer : Type 0 where
  bad_request undecodable unauthorized : Answer
  authenticated : UserInfo → Answer
  reviewed : Reply → Answer

-- An error of the sync is logged only; an index out of range panics.
abbrev pub after_sync : UserInfo → Result SyncError (Unit {0}) → Option Answer
after_sync user (err panicked) = none
after_sync user _ = some (authenticated user)

abbrev pub known_version : Str → Bool
known_version v = not (
    not (v == str "authentication.k8s.io/v1beta1") && not (v == str "authorization.k8s.io/v1beta1"))

module _ (K : Identity) (S : StringSet) (unmarshal : Str → Option (List Str)) where
  abbrev pub Handled : Type 0
  Handled = K.cluster.State → Option Answer × K.cluster.State

  -- The sync, for a user with a list of projects.
  abbrev pub sync_if : List Str → Auth → SyncConfig → UserInfo → Handled
  sync_if [] auth sc user s = (some (authenticated user), s)
  sync_if (_ ∷ _) auth sc user s =
      let (r, s') = sync_data K.cluster auth.client sc user s in (after_sync user r, s')

  abbrev pub sync_user : Auth → UserInfo → Option SyncConfig → Handled
  sync_user auth user none s = (some (authenticated user), s)
  sync_user auth user (some sc) s = sync_if (extra_values user project_id) auth sc user s

  abbrev pub answer_for : Auth → Option UserInfo → Handled
  answer_for auth none s = (some unauthorized, s)
  answer_for auth (some user) s = sync_user auth user auth.sync_config s

  unfoldable pub review_token : Auth → Str → Handled
  review_token auth token s =
      let (user, s') = authenticate_token K token s in answer_for auth user s'

  abbrev pub review_spec : Auth → Option Fields → Handled
  review_spec auth none s = (none, s)
  review_spec auth (some spec) s = elim (text_at spec (str "token")) [
    | none ↦ (none, s)
    | some token ↦ review_token auth token s
  ]

  abbrev pub reviewed_as : Option Reply → Option Answer
  reviewed_as none = none
  reviewed_as (some r) = some (reviewed r)

  abbrev pub handle_kind : Auth → Fields → Str → Handled
  handle_kind auth body kind s =
      let tokens = review_spec auth (object_at body (str "spec")) s in
      if kind == str "TokenReview"
      then tokens
      else if kind == str "SubjectAccessReview"
      then (reviewed_as (authorize_token S unmarshal auth.policies body), s)
      else (some bad_request, s)

  abbrev pub handle_version : Auth → Fields → Option Str → Option Str → Handled
  handle_version auth body none kind s = (none, s)
  handle_version auth body (some version) none s = (none, s)
  handle_version auth body (some version) (some kind) s =
      if not (known_version version) then (some bad_request, s) else handle_kind auth body kind s

  -- The decoded body, or `none` where it does not decode. The result `none` is a panic.
  unfoldable pub handler : Auth → Option Fields → Handled
  handler auth none s = (some undecodable, s)
  handler auth (some body) s =
      handle_version auth body (text_at body (str "apiVersion")) (text_at body (str "kind")) s
