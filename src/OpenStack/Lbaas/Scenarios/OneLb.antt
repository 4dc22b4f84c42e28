-- ===== src/OpenStack/Lbaas/Scenarios/OneLb.antt =====
-- A load-balancing service with one active load balancer, one listener and one pool. Its state is the list
-- of the members' identifiers: the port and then the address of each.
use mathlib.Core.List.{Perm}
use mathlib.Core.List.Perm
use mathlib.Core.Path.{subst}
use cpo.Base.{
  ℕ, zero, suc, ◌≡◌, refl, sym, ap, ◌∙◌, inl, inr, Bool, true, false, ◌&&◌, List, [], ◌∷◌, ◌==◌,
  map, arith, Str, str, any, nat_eq, list_eq, nat_beq_iff, str_eq_iff, str_eq_refl, Bool-cases,
  if◌then◌else◌,
}
use cpo.Exec.{ok, err, Exec, Result-cases, ok-injective}
use cpo.Exec.Keeps.{Keeps}
use cpo.OpenStack.Idle.{idle_cloud}
use cpo.OpenStack.Lbaas.Api.{
  Fault, no_such_resource, done, page, LoadBalancer, Listener, Pool, Member, Network, Balancer,
}
use cpo.OpenStack.Lbaas.Lookup.{itself, gather, collect_all, get_members_by_pool_id}
use cpo.OpenStack.Lbaas.Members.Laws.{MemberLaws}
use cpo.OpenStack.Lbaas.Members.Pairs.{any-perm}
use cpo.OpenStack.Lbaas.Wait.Attempts.{attempts}
use cpo.Strings.Decimal.{ℤ}

abbrev pub Ids : Type 0
Ids = List Str

abbrev pub member_of : Str → Member
member_of [] = record { id = []; address = []; protocol_port = 0 }
member_of (port ∷ address) = record { id = port ∷ address; address = address; protocol_port = port }

abbrev remove_first : Str → Ids → Ids
remove_first id [] = []
remove_first id (x ∷ s) = let rest = remove_first id s in if x == id then s else x ∷ rest

abbrev pub the_lb : LoadBalancer
the_lb = record {
  id = str "lb";
  name = str "kube_service_c_ns_web";
  provisioning_status = str "ACTIVE";
  vip_port_id = str "vip";
  vip_address = str "10.0.0.5";
}

abbrev the_listener : Listener
the_listener = record {
  id = str "l";
  protocol = str "TCP";
  protocol_port = 80;
  conn_limit = ℤ.negsuc 0;
  load_balancers = str "lb" ∷ [];
}

abbrev the_pool : Pool
the_pool = record { id = str "p"; monitor_id = []; listeners = str "l" ∷ [] }

abbrev pub networks : List Network
networks =
    (record { id = str "private"; is_external = false })
    ∷ (record { id = str "public"; is_external = true })
    ∷ (record { id = str "other"; is_external = true })
    ∷ []

abbrev pub only_name : Str → List LoadBalancer
only_name name = if name == the_lb.name then the_lb ∷ [] else []

abbrev pub one_lb : Balancer
one_lb = record {
  cloud = idle_cloud Ids;
  list_load_balancers = λ name s. (ok (only_name name), s);
  get_load_balancer = λ _ s. (ok the_lb, s);
  create_load_balancer = λ _ s. (ok the_lb, s);
  delete_load_balancer = λ _ _ s. (ok tt, s);
  list_listeners = λ _ s. (page (the_listener ∷ []) done, s);
  create_listener = λ _ s. (ok the_listener, s);
  update_listener = λ _ _ s. (ok tt, s);
  delete_listener = λ _ s. (ok tt, s);
  list_pools = λ _ s. (page (the_pool ∷ []) done, s);
  create_pool = λ _ s. (ok the_pool, s);
  delete_pool = λ _ s. (ok tt, s);
  list_members = λ _ s. (page (map member_of s) done, s);
  create_member =
      λ _ o s. (ok (member_of (o.protocol_port ∷ o.address)), (o.protocol_port ∷ o.address) ∷ s);
  delete_member = λ _ id s. (ok tt, remove_first id s);
  create_monitor = λ _ s. (ok (str "m"), s);
  delete_monitor = λ _ s. (ok tt, s);
  list_floating_ips = λ _ s. (done, s);
  create_floating_ip =
      λ o s. (ok (record { id = str "f"; floating_ip = str "172.24.4.9"; port_id = o.port_id }), s);
  update_floating_ip =
      λ id port s. (ok (record { id = id; floating_ip = str "172.24.4.9"; port_id = port }), s);
  delete_floating_ip = λ _ s. (ok tt, s);
  list_networks = λ s. (page networks done, s);
  list_subnets = λ _ s. (ok [], s);
  get_subnet = λ id s. (ok (record { id = id; cidr = str "10.0.0.0/24" }), s);
  list_ports = λ _ s. (ok [], s);
  get_network_port = λ id s. (ok (record { id = id; security_groups = [] }), s);
  update_port_groups = λ _ _ s. (ok tt, s);
  add_tag = λ _ _ s. (ok tt, s);
  delete_tag = λ _ _ s. (ok tt, s);
  group_id_from_name = λ _ s. (err no_such_resource, s);
  create_group = λ _ _ s. (ok (str "g"), s);
  delete_group = λ _ s. (ok tt, s);
  list_rules = λ _ s. (done, s);
  create_rule = λ _ s. (ok tt, s);
  delete_rule = λ _ s. (ok tt, s);
  exponential_backoff = λ b m p. attempts (λ n q. q) m b.steps p;
  default_load_balancer_name = λ service. service.uid;
}

abbrev pub members : Str → Ids → List Member
members _ s = map member_of s

gather-itself : {A : Type 0} (l : List A) → gather itself l ≡ l
gather-itself [] = refl
gather-itself (a ∷ l) = ap (λ r. a ∷ r) (gather-itself l)

attempts-Keeps :
    {S X : Type 0} (obs : S → X) (m : Exec Fault S Bool) (n : ℕ)
    → Keeps obs m
    → Keeps obs (attempts (λ n q. q) m n)
attempts-Keeps {S = S} obs m n k = record { at = by n }
  where
    by : (n : ℕ) (s : S) → obs (attempts (λ n q. q) m n s).1 ≡ obs s
    by zero s = refl
    by (suc n) s = elim (Result-cases (m s).0) [
      | inl (e, eq) ↦ rw (eq, attempts) (k.at s)
      | inr (b, eq) ↦ elim (Bool-cases b) [
        | inl t ↦ rw (eq ∙ ap ok t, attempts) (k.at s)
        | inr f ↦ rw (eq ∙ ap ok f, attempts) (by n (m s).1 ∙ k.at s)
      ]
    ]

-- Whether two members are the same.
abbrev same : Member → Member → Bool
same m n = n.id == m.id && (n.address == m.address && n.protocol_port == m.protocol_port)

same-eq : (m n : Member) → same m n ≡ true → n ≡ m
same-eq m n h =
    let a = (str_eq_iff n.id m.id).0 (ground arith) in
    let b = (str_eq_iff n.address m.address).0 (ground arith) in
    let c = (nat_beq_iff n.protocol_port m.protocol_port).0 (ground arith) in
    λ i. record { id = a i; address = b i; protocol_port = c i }

find-step :
    (x id : Str) (s : Ids)
    → Perm (member_of id ∷ map member_of (remove_first id s)) (map member_of s)
    → Perm (member_of id ∷ map member_of (remove_first id (x ∷ s))) (map member_of (x ∷ s))
find-step x id s perm = elim (Bool-cases (x == id)) [
  | inl e ↦
      rw (e, remove_first)
        (subst (λ y. Perm (member_of id ∷ map member_of s) (member_of y ∷ map member_of s))
          (sym ((str_eq_iff x id).0 e)) (Perm.refl _))
  | inr f ↦ rw (f, remove_first) (Perm.trans (Perm.swap _ _ _) (Perm.cons (member_of x) perm))
]

-- An identifier whose member passes a test.
find :
    (p : Member → Bool) (s : Ids)
    → any p (map member_of s) ≡ true
    → (id : Str) × (p (member_of id) ≡ true)
      × Perm (member_of id ∷ map member_of (remove_first id s)) (map member_of s)
find p [] h = cc
find p (x ∷ s) h = elim (Bool-cases (p (member_of x))) [
  | inl t ↦ (x, t, rw (str_eq_refl x, remove_first) (Perm.refl _))
  | inr f ↦ let (id, t, perm) = find p s (ground arith) in (id, t, find-step x id s perm)
]

id-member_of : (x : Str) → (member_of x).id ≡ x
id-member_of [] = refl
id-member_of (p ∷ a) = refl

same_refl : (m : Member) → same m m ≡ true
same_refl m = ground (arith, str_eq_refl m.id, str_eq_refl m.address)

deletion-removes :
    (s : Ids) (m : Member) (rest : List Member)
    → Perm (map member_of s) (m ∷ rest)
    → Perm (map member_of (remove_first m.id s)) rest
deletion-removes s m rest p =
    let (id, t, perm) = find (same m) s (any-perm (same m) p ∙ ground (arith, same_refl m)) in
    let e : member_of id ≡ m = same-eq m (member_of id) t in
    let named : id ≡ m.id = sym (id-member_of id) ∙ ap (λ (n : Member). n.id) e in
    let q : Perm (m ∷ map member_of (remove_first id s)) (map member_of s) =
      subst (λ n. Perm (n ∷ map member_of (remove_first id s)) (map member_of s)) e perm in
    subst (λ i. Perm (map member_of (remove_first i s)) rest) named (Perm.cons_inv (Perm.trans q p))

pub one_lb-MemberLaws : MemberLaws one_lb members
unfolding get_members_by_pool_id collect_all
one_lb-MemberLaws = record {
  list_reads = λ pool s l h.
      subst (λ k. Perm (map member_of s) k)
        (sym (gather-itself (map member_of s)) ∙ ok-injective _ _ h) (Perm.refl _);
  list_missing = λ pool s h. cc;
  list_keeps = λ pool q. record { at = λ s. refl };
  create_adds = λ pool o s m h.
      let e : member_of (o.protocol_port ∷ o.address) ≡ m = ok-injective _ _ h in
      (
        sym (ap (λ (n : Member). n.address) e),
        sym (ap (λ (n : Member). n.protocol_port) e),
        subst
            (λ n.
              Perm (member_of (o.protocol_port ∷ o.address) ∷ map member_of s)
                (n ∷ map member_of s))
            e (Perm.refl _),
      );
  delete_removes = λ pool s m rest h p. deletion-removes s m rest p;
  get_keeps = λ id q. record { at = λ s. refl };
  backoff_keeps = λ b m q k. attempts-Keeps (λ p. members q p.0) m b.steps k;
}
