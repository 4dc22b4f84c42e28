-- ===== src/Keystone/Webhook/Answers.antt =====
-- The answer of the webhook to the review of a request.
use cpo.Base.{◌≡◌, refl, ap, ◌∙◌, true, false, Option, some, List, [], ◌∷◌, ◌⊎◌, inl, inr, Str, str}
use cpo.Sets.{StringSet}
use cpo.Keystone.Policy.{Policy, Attributes}
use cpo.Keystone.Authorize.{authorize}
use cpo.Keystone.Authorize.Whitelist.{AreComplete, IsGranted, authorize-decides}
use cpo.Keystone.Webhook.{Fields, done, field, object, allowed, reply_of, decide, authorize_token}
use cpo.Keystone.Webhook.Reviews.{IsExtra, review, seen, read_attributes-review}

module _ (S : StringSet) (unmarshal : Str → Option (List Str)) where
  abbrev pub body : Attributes → Fields
  body a = field (str "spec") (object (review a)) done

  decide-authorize :
      (pl : List Policy) (a : Attributes) → decide S unmarshal pl a ≡ authorize S unmarshal pl a
  unfolding decide authorize
  decide-authorize [] a = refl
  decide-authorize (p ∷ pl) a = refl

  -- The webhook answers the review of a request: with complete policies it allows the request exactly
  -- if the policies grant it to the user without an id, and it never fails.
  pub authorize_token-answers :
      (pl : List Policy) (a : Attributes)
      → AreComplete pl
      → IsExtra a.user.extra
      → ((authorize_token S unmarshal pl (body a) ≡ some (allowed true))
          × IsGranted S unmarshal (seen a) pl)
        ⊎ ((authorize_token S unmarshal pl (body a) ≡ some (allowed false))
            × (¬ IsGranted S unmarshal (seen a) pl))
  unfolding authorize_token
  authorize_token-answers pl a c x =
      let r = read_attributes-review a x in
      elim (authorize-decides S unmarshal (seen a) pl c) [
        | inl (e, g) ↦ inl (rw r (ap reply_of (decide-authorize pl (seen a) ∙ e)), g)
        | inr (e, g) ↦ inr (rw r (ap reply_of (decide-authorize pl (seen a) ∙ e)), g)
      ]
