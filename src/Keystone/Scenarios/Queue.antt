-- ===== src/Keystone/Scenarios/Queue.antt =====
-- A work queue whose state is the list of its keys, none twice, and the number of failures of each key. The
-- config map "kube-system/bad" cannot be fetched; each other one has unreadable policies.
use cpo.Base.{
  ℕ, suc, drop, ◌≡◌, ◌≢◌, refl, ◌∙◌, ◌⊎◌, inl, inr, Bool, true, false, Option, none, some, List, [],
  ◌∷◌, ◌++◌, ◌==◌, Str, str, contains, contains-append, str_eq_iff, str_eq_refl, str_neq_false,
  nat_eq, list_eq, if◌then◌else◌, arith,
}
use cpo.Exec.{ok, err}
use cpo.Maps.{AllOnce}
use cpo.Keystone.Controller.{Worker, failed}
use cpo.Keystone.Controller.Rounds.{QueueLaws}

abbrev pub Queue : Type 0
Queue = (keys : List Str) × AllOnce keys × (Str → ℕ)

pub AllOnce-append :
    (ks : List Str) (j : Str) → AllOnce ks → contains ks j ≡ false → AllOnce (ks ++ j ∷ [])
AllOnce-append [] j o h = (refl, tt)
AllOnce-append (k ∷ ks) j (here, o) h = (
  contains-append ks (j ∷ []) k ∙ ground (arith, str_eq_iff j k, str_eq_iff k j),
  AllOnce-append ks j o (ground arith),
)

-- A decision that computes.
abbrev pub decided : (b : Bool) → (b ≡ true) ⊎ (b ≡ false)
decided true = inl refl
decided false = inr refl

abbrev add_by :
    (ks : List Str) (j : Str)
    → AllOnce ks
    → (contains ks j ≡ true) ⊎ (contains ks j ≡ false)
    → (keys : List Str) × AllOnce keys
add_by ks j o (inl _) = (ks, o)
add_by ks j o (inr h) = (ks ++ j ∷ [], AllOnce-append ks j o h)

pub add_by-new :
    (ks : List Str) (j : Str) (o : AllOnce ks)
    (d : (contains ks j ≡ true) ⊎ (contains ks j ≡ false))
    → contains ks j ≡ false
    → (add_by ks j o d).0 ≡ ks ++ j ∷ []
add_by-new ks j o (inl e) h = cc
add_by-new ks j o (inr e) h = refl

abbrev counted : Str → ℕ → (Str → ℕ) → Str → ℕ
counted j n count k = if k == j then n else count k

abbrev added : Str → (Str → ℕ) → Queue → Queue
added j count (ks, o, _) =
    (let (keys, once) = add_by ks j o (decided (contains ks j)) in (keys, once, count))

abbrev next_of : Queue → Option Str × Queue
next_of ([], o, count) = (none, ([], o, count))
next_of (k ∷ ks, o, count) = (some k, (ks, o.1, count))

abbrev pub worker : Worker
worker = record {
  State = Queue;
  next = next_of;
  finish = λ _ s. s;
  forget = λ j s. (s.0, s.1, counted j 0 s.2);
  add = λ j s. added j s.2 s;
  add_rate_limited = λ j s. added j (counted j (suc (s.2 j)) s.2) s;
  num_requeues = λ k s. s.2 k;
  config_map = λ _ name s.
      (if name == str "bad" then err failed else ok ((str "policies", str "[") ∷ []), s);
  split_key = λ key. some (str "kube-system", drop 12 key);
  policies_of = λ _. [];
  sync_config_of = λ sc _. sc;
}

pub counted-other : (j k : Str) (n : ℕ) (count : Str → ℕ) → k ≢ j → counted j n count k ≡ count k
counted-other j k n count h = rw (str_neq_false k j h, if◌then◌else◌) refl

pub next_of-takes :
    (s : Queue)
    → s.0 ≢ []
    → (k : Str) × (ks : List Str) × (js : List Str) × ((next_of s).0 ≡ some k)
      × (s.0 ≡ ks ++ k ∷ js)
      × ((next_of s).1.0 ≡ ks ++ js)
next_of-takes ([], o, count) h = absurd (h refl)
next_of-takes (k ∷ ks, o, count) h = (k, [], ks, refl, refl, refl)

pub next_of-counts : (s : Queue) (k : Str) → (next_of s).1.2 k ≡ s.2 k
next_of-counts ([], o, count) k = refl
next_of-counts (j ∷ ks, o, count) k = refl

abbrev pub worker_laws : QueueLaws worker
worker_laws = record {
  waiting = λ s. s.0;
  once = λ s. s.1;
  next_takes = next_of-takes;
  next_counts = next_of-counts;
  read_waits = λ _ _ s. (refl, λ k. refl);
  finish_waits = λ j s. (refl, λ k. refl);
  forget_waits = λ j s. (refl, λ k h. counted-other j k 0 s.2 h);
  added_waits = λ j s h. (
    add_by-new s.0 j s.1 (decided (contains s.0 j)) h,
    rw (str_eq_refl j, if◌then◌else◌) refl,
    λ k n. counted-other j k (suc (s.2 j)) s.2 n,
  );
}
