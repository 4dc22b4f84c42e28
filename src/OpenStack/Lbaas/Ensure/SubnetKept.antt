-- ===== src/OpenStack/Lbaas/Ensure/SubnetKept.antt =====
-- The subnet that `EnsureLoadBalancer` reads off one service stays in the options.
use cpo.Base.{
  ◌≡◌, ◌≢◌, refl, sym, ap, ◌∙◌, inl, inr, Bool, true, false, none, some, List, [], ◌∷◌, Str, nat_eq,
  list_eq, str_neq_false, if◌then◌else◌,
}
use cpo.Exec.{pure, Result-cases}
use cpo.Exec.Keeps.{Keeps, bind-Keeps, continue-Keeps}
use cpo.IpNets.{Networks}
use cpo.Maps.{get}
use cpo.OpenStack.Lbaas.Api.{Fault, LoadBalancer, Balancer}
use cpo.OpenStack.Lbaas.Calls.{Call, Lbaas, Method, call, with_ports}
use cpo.OpenStack.Lbaas.Ensure.{
  ensure_load_balancer, ensure_with_ports, ensure_groups, or_clean_up, ensure_parts,
}
use cpo.OpenStack.Lbaas.EnsureGroup.{
  ensure_security_group, ensure_ported_group, ensure_group, needs_groups,
}
use cpo.OpenStack.Lbaas.Groups.{read_node_security_groups}
use cpo.OpenStack.Lbaas.Services.{
  ServicePort, Service, Node, get_string_from_service_annotation, subnet_id,
}
use cpo.OpenStack.Lbaas.Subnets.{use_subnet, choose_subnet}
use cpo.Sets.{StringSet}

module _ (B : Balancer) (S : StringSet) (N : Networks) where
  abbrev subnet : Lbaas B → Str
  subnet l = l.opts.subnet_id

  call-Keeps : {A : Type 0} (m : Call B A) → Keeps subnet (call B m)
  call-Keeps m = record { at = λ l. refl }

  pure-Keeps : {A : Type 0} (a : A) → Keeps {E = Fault} subnet (pure a)
  pure-Keeps a = record { at = λ l. refl }

  choice-Keeps :
      {A : Type 0} (b : Bool) (m n : Method B A)
      → Keeps subnet m
      → Keeps subnet n
      → Keeps subnet (if b then m else n)
  choice-Keeps true m n k l = k
  choice-Keeps false m n k l = l

  with_ports-Keeps :
      {A : Type 0} (ports : List ServicePort) (m : Method B A)
      → Keeps subnet m
      → Keeps subnet (with_ports B ports m)
  with_ports-Keeps [] m k = record { at = λ l. refl }
  with_ports-Keeps (_ ∷ _) m k = k

  read-Keeps : (nodes : List Node) → Keeps subnet (read_node_security_groups B S nodes)
  unfolding read_node_security_groups
  read-Keeps nodes = record { at = λ l. refl }

  ensure_security_group-Keeps :
      (c : Str) (service : Service) (nodes : List Node) (lb : LoadBalancer)
      → Keeps subnet (ensure_security_group B S N c service nodes lb)
  unfolding ensure_security_group ensure_ported_group
  ensure_security_group-Keeps c service nodes lb = record {
    at = λ l.
        (bind-Keeps
            (if needs_groups B S N l.opts then read_node_security_groups B S nodes else pure tt)
            (λ _. ensure_ported_group B S N c service nodes lb)
            (choice-Keeps _ _ _ (read-Keeps nodes) (pure-Keeps tt))
            (λ _. record {
              at = λ k.
                  (with_ports-Keeps service.ports _
                      (call-Keeps (ensure_group B S N c service nodes lb k.opts))).at
                    k;
            })).at
          l;
  }

  or_clean_up-Keeps :
      (c : Str) (service : Service) (m : Method B (Unit {0}))
      → Keeps subnet m
      → Keeps subnet (or_clean_up B S N c service m)
  unfolding or_clean_up
  or_clean_up-Keeps c service m k = record {
    at = λ l. elim (Result-cases (m l).0) [
      | inl (e, eq) ↦ rw (eq, or_clean_up) (k.at l)
      | inr (u, eq) ↦ rw (eq, or_clean_up) (k.at l)
    ];
  }

  ensure_groups-Keeps :
      (c : Str) (service : Service) (nodes : List Node) (lb : LoadBalancer)
      → Keeps subnet (ensure_groups B S N c service nodes lb)
  unfolding ensure_groups
  ensure_groups-Keeps c service nodes lb = record {
    at = λ l.
        (choice-Keeps l.opts.manage_security_groups _ _
            (or_clean_up-Keeps c service _ (ensure_security_group-Keeps c service nodes lb))
            (pure-Keeps tt)).at
          l;
  }

  ensure_with_ports-Keeps :
      (c : Str) (service : Service) (nodes : List Node)
      → Keeps subnet (ensure_with_ports B S N c service nodes)
  unfolding ensure_with_ports
  ensure_with_ports-Keeps c service nodes = record {
    at = λ l.
        (bind-Keeps (call B (ensure_parts B S N l.opts c service nodes)) _
            (call-Keeps (ensure_parts B S N l.opts c service nodes))
            (λ (lb, status).
              bind-Keeps (ensure_groups B S N c service nodes lb) (λ _. pure status)
                (ensure_groups-Keeps c service nodes lb) (λ _. pure-Keeps status))).at
          l;
  }

  -- What the choice leaves where the service has the annotation, and where it has none.
  use_subnet-eq :
      (id : Str) (nodes : List Node) (l : Lbaas B)
      → id ≢ []
      → subnet (use_subnet B id nodes l).1 ≡ id
  unfolding use_subnet
  use_subnet-eq id nodes l n = rw (str_neq_false id [] n, if◌then◌else◌) refl

  choose_subnet-annotated :
      (service : Service) (nodes : List Node) (x : Str)
      → get service.annotations subnet_id ≡ some x
      → x ≢ []
      → (l : Lbaas B) → subnet (choose_subnet B service nodes l).1 ≡ x
  unfolding choose_subnet get_string_from_service_annotation
  choose_subnet-annotated service nodes x h n l =
      let e : get_string_from_service_annotation service subnet_id l.opts.subnet_id ≡ x =
        rw (h, get_string_from_service_annotation) refl in
      ap (λ id. subnet (use_subnet B id nodes l).1) e ∙ use_subnet-eq x nodes l n

  choose_subnet-unannotated :
      (service : Service) (nodes : List Node)
      → get service.annotations subnet_id ≡ none
      → (l : Lbaas B) → subnet l ≢ []
      → subnet (choose_subnet B service nodes l).1 ≡ subnet l
  unfolding choose_subnet get_string_from_service_annotation
  choose_subnet-unannotated service nodes h l n =
      let e : get_string_from_service_annotation service subnet_id l.opts.subnet_id ≡ subnet l =
        rw (h, get_string_from_service_annotation) refl in
      ap (λ id. subnet (use_subnet B id nodes l).1) e ∙ use_subnet-eq (subnet l) nodes l n

  ensure_load_balancer-leaves :
      (c : Str) (service : Service) (node : Node) (nodes : List Node) (x : Str)
      → get service.annotations subnet_id ≡ some x
      → x ≢ []
      → (l : Lbaas B) → subnet (ensure_load_balancer B S N c service (node ∷ nodes) l).1 ≡ x
  unfolding ensure_load_balancer
  ensure_load_balancer-leaves c service node nodes x h n l =
      continue-Keeps (choose_subnet B service (node ∷ nodes) l).0
        (λ _. with_ports B service.ports (ensure_with_ports B S N c service (node ∷ nodes)))
        (choose_subnet B service (node ∷ nodes) l).1
        (λ _. with_ports-Keeps service.ports _ (ensure_with_ports-Keeps c service (node ∷ nodes)))
      ∙ choose_subnet-annotated service (node ∷ nodes) x h n l

  -- After `EnsureLoadBalancer`, with at least one node, for a service with an annotation for a subnet that is not
  -- empty, whether it ends well or not, this subnet is chosen for another service that has no such annotation,
  -- whatever the configuration says.
  pub ensure_load_balancer-leaks_subnet :
      (c : Str) (first second : Service) (node : Node) (nodes others : List Node) (x : Str)
      → get first.annotations subnet_id ≡ some x
      → x ≢ []
      → get second.annotations subnet_id ≡ none
      → (l : Lbaas B)
      → (choose_subnet B second others
          (ensure_load_balancer B S N c first (node ∷ nodes) l).1).1.opts.subnet_id
        ≡ x
  ensure_load_balancer-leaks_subnet c first second node nodes others x h n k l =
      let e = ensure_load_balancer-leaves c first node nodes x h n l in
      choose_subnet-unannotated second others k _ (λ z. n (sym e ∙ z)) ∙ e
