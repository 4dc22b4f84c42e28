-- ===== src/OpenStack/Lbaas/Remove/Laws.antt =====
-- Which load balancers there are, and the deletion of security groups, which keeps them.
use cpo.Base.{◌≡◌, refl, ◌∙◌, Bool, false, List, [], ◌∷◌, Str, str, if◌then◌else◌}
use cpo.Exec.{Result, ok, err, pure}
use cpo.Exec.Keeps.{Keeps, bind-Keeps}
use cpo.OpenStack.Lbaas.Api.{Fault, missing, no_such_resource, RuleOpts, Rule, Balancer}
use cpo.OpenStack.Lbaas.Calls.{Call, seen, wrapped, or_missing}
use cpo.OpenStack.Lbaas.Groups.{
  delete_rules, find_rules, any_rule, delete_all_rules, delete_group, delete_named,
  disassociate_security_group, ensure_security_group_deleted,
}
use cpo.OpenStack.Lbaas.Lookup.{get_security_group_rules}
use cpo.OpenStack.Lbaas.Services.{Service, LbOpts, get_security_group_name}
use cpo.Sets.{StringSet}

-- Which load balancers there are: one that a read reports as missing is not there, and no call on security
-- groups makes one.
pub record PresenceLaws (B : Balancer) : Type 0 where
  pub there : B.cloud.State → Str → Bool
  pub read_missing :
      (id : Str) (s : B.cloud.State)
      → (B.get_load_balancer id s).0 ≡ err missing
      → there (B.get_load_balancer id s).1 id ≡ false
  pub group_id_from_name_keeps : (name : Str) → Keeps there (B.group_id_from_name name)
  pub delete_group_keeps : (group : Str) → Keeps there (B.delete_group group)
  pub list_rules_keeps :
      (opts : RuleOpts) (s : B.cloud.State) → there (B.list_rules opts s).1 ≡ there s
  pub delete_rule_keeps : (id : Str) → Keeps there (B.delete_rule id)

module _ (B : Balancer) (S : StringSet) (laws : PresenceLaws B) where
  unfoldable pub Still : {A : Type 0} → Call B A → Type 0
  Still m = Keeps laws.there m

  seen-Still :
      {A C : Type 0} (f : Result Fault A → Result Fault C) (m : Call B A)
      → Still m
      → Still (seen f m)
  unfolding Still
  seen-Still f m k = record { at = k.at }

  delete_rules-Still : (rules : List Rule) → Still (delete_rules B S rules)
  unfolding Still delete_rules
  delete_rules-Still [] = record { at = λ s. refl }
  delete_rules-Still (rule ∷ rules) =
      bind-Keeps
        (seen (λ r. wrapped (str "error occurred deleting security group rule") (or_missing r))
          (B.delete_rule rule.id))
        _ (record { at = (laws.delete_rule_keeps rule.id).at }) λ _. delete_rules-Still rules

  find_rules-Still : (text : Str) (opts : RuleOpts) → Still (find_rules B S text opts)
  unfolding Still find_rules get_security_group_rules
  find_rules-Still text opts = record { at = laws.list_rules_keeps opts }

  delete_all_rules-Still :
      (lb_group : Str) (groups : List Str) → Still (delete_all_rules B S lb_group groups)
  unfolding Still delete_all_rules
  delete_all_rules-Still lb_group [] = record { at = λ s. refl }
  delete_all_rules-Still lb_group (group ∷ groups) =
      bind-Keeps
        (find_rules B S (str "error finding rules for remote group id")
          (any_rule B S group lb_group))
        _
        (find_rules-Still (str "error finding rules for remote group id")
          (any_rule B S group lb_group))
        λ rules.
          bind-Keeps (delete_rules B S rules) _ (delete_rules-Still rules)
            λ _. delete_all_rules-Still lb_group groups

  delete_group-Still :
      (opts : LbOpts) (lb_group : Str)
      → opts.use_octavia ≡ false
      → Still (delete_group B S opts lb_group)
  unfolding Still delete_group
  delete_group-Still opts lb_group h =
      bind-Keeps
        (if opts.use_octavia
          then seen (wrapped (str "failed to disassociate security group"))
              (disassociate_security_group B S lb_group)
          else pure tt)
        _ (rw (h, if◌then◌else◌) (record { at = λ s. refl }))
        λ _.
          bind-Keeps (seen or_missing (B.delete_group lb_group)) _
            (record { at = (laws.delete_group_keeps lb_group).at })
            λ _. delete_all_rules-Still lb_group opts.node_security_group_ids

  after_name-keeps :
      (opts : LbOpts) (r : Result Fault Str) (s : B.cloud.State)
      → opts.use_octavia ≡ false
      → laws.there (delete_named B S opts r s).1 ≡ laws.there s
  unfolding Still
  after_name-keeps opts (ok lb_group) s h = (delete_group-Still opts lb_group h).at s
  after_name-keeps opts (err no_such_resource) s h = refl
  after_name-keeps opts (err _) s h = refl

  pub groups_deleted-Still :
      (opts : LbOpts) (service : Service)
      → opts.use_octavia ≡ false
      → Still (ensure_security_group_deleted B S opts service)
  unfolding Still ensure_security_group_deleted
  groups_deleted-Still opts service h = record {
    at = λ s.
        let name = get_security_group_name service in
        after_name-keeps opts (B.group_id_from_name name s).0 (B.group_id_from_name name s).1 h
        ∙ (laws.group_id_from_name_keeps name).at s;
  }
