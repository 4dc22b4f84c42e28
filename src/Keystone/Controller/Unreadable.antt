-- ===== src/Keystone/Controller/Unreadable.antt =====
-- What a config map whose policies cannot be read does to the webhook.
use cpo.Base.{
  ◌≡◌, refl, true, false, Option, some, List, [], ◌==◌, Str, str, str_eq_refl, nat_eq, list_eq,
}
use cpo.Exec.{ok}
use cpo.Maps.{Map, get}
use cpo.Sets.{StringSet}
use cpo.Keystone.Controller.{
  Worker, ConfigNames, or_empty, update_policies, if_named, apply_config_map, process_split,
  process_item,
}
use cpo.Keystone.Handler.{Auth}
use cpo.Keystone.Policy.{Attributes}
use cpo.Keystone.Webhook.{allowed, decide, authorize_token}
use cpo.Keystone.Webhook.Answers.{body}
use cpo.Keystone.Webhook.Reviews.{IsExtra, read_attributes-review}

module _ (W : Worker) (names : ConfigNames) (S : StringSet)
    (unmarshal : Str → Option (List Str)) where
  denied :
      (a : Attributes)
      → IsExtra a.user.extra
      → authorize_token S unmarshal [] (body S unmarshal a) ≡ some (allowed false)
  unfolding authorize_token decide
  denied a x = rw (read_attributes-review a x) refl

  -- If decoding the policies of the policy config map leaves none, as where the text cannot be read, the worker
  -- takes this for a success, and from then on every review of a request is answered with a denial, whatever the
  -- policies allowed before. The config map of the sync has another name.
  pub unreadable_policies-deny :
      (key namespace : Str) (auth : Auth) (s : W.State) (cm : Map Str) (a : Attributes)
      → W.split_key key ≡ some (namespace, names.policy_config_map)
      → (names.policy_config_map == names.sync_config_map) ≡ false
      → (W.config_map namespace names.policy_config_map s).0 ≡ ok cm
      → W.policies_of (or_empty (get cm (str "policies"))) ≡ []
      → IsExtra a.user.extra
      → ((process_item W names key auth s).0 ≡ true)
        × (authorize_token S unmarshal
              (process_item W names key auth s).1.0.policies
              (body S unmarshal a)
            ≡ some (allowed false))
  unfolding process_item apply_config_map update_policies
  unreadable_policies-deny key namespace auth s cm a split other read none x =
      rw (split, process_split)
        (rw (read, apply_config_map)
          (rw (other, if_named)
            (rw (str_eq_refl names.policy_config_map, if_named) (rw none (refl, denied a x)))))
