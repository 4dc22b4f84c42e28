-- ===== src/Keystone/Controller/Rounds.antt =====
-- The worker comes to an end: a key is taken up at most six times.
use cpo.Base.{
  ℕ, zero, suc, ◌+◌, ◌-◌, ◌*◌, ◌≤◌, ◌<◌, ◌≡◌, ◌≢◌, refl, ap, ◌∙◌, ◌⊎◌, inl, inr, Bool, true, false,
  Bool-cases, Option, none, some, List, [], ◌∷◌, ◌++◌, Str, length, contains, arith, ltb, ltb→lt,
  nat_eq, list_eq,
}
use mathlib.Core.Path.{subst}
use cpo.Maps.{AllOnce}
use cpo.Keystone.Controller.{
  Worker, ConfigNames, max_retries, process_split, process_item, after_item, process_next,
  process_next_item, rounds,
}
use cpo.Keystone.Handler.{Auth}
use cpo.Keystone.Controller.Budget.{
  budget, budget-append, budget-le, budget-same, budget-eq, once-rest,
}

-- What the work queue documents while nobody else adds keys: `waiting` are the keys that are queued or wait for
-- their delay to pass, none twice; `Get` takes one of them, and a key that is added again waits with the others.
pub record QueueLaws (W : Worker) : Type 0 where
  pub waiting : W.State → List Str
  pub once : (s : W.State) → AllOnce (waiting s)
  pub next_takes :
      (s : W.State)
      → waiting s ≢ []
      → (k : Str) × (ks : List Str) × (js : List Str) × ((W.next s).0 ≡ some k)
        × (waiting s ≡ ks ++ k ∷ js)
        × (waiting (W.next s).1 ≡ ks ++ js)
  pub next_counts : (s : W.State) (k : Str) → W.num_requeues k (W.next s).1 ≡ W.num_requeues k s
  pub read_waits :
      (namespace name : Str) (s : W.State)
      → (waiting (W.config_map namespace name s).1 ≡ waiting s)
        × ((k : Str) → W.num_requeues k (W.config_map namespace name s).1 ≡ W.num_requeues k s)
  pub finish_waits :
      (j : Str) (s : W.State)
      → (waiting (W.finish j s) ≡ waiting s)
        × ((k : Str) → W.num_requeues k (W.finish j s) ≡ W.num_requeues k s)
  pub forget_waits :
      (j : Str) (s : W.State)
      → (waiting (W.forget j s) ≡ waiting s)
        × ((k : Str) → k ≢ j → W.num_requeues k (W.forget j s) ≡ W.num_requeues k s)
  pub added_waits :
      (j : Str) (s : W.State)
      → contains (waiting s) j ≡ false
      → (waiting (W.add_rate_limited j s) ≡ waiting s ++ j ∷ [])
        × (W.num_requeues j (W.add_rate_limited j s) ≡ suc (W.num_requeues j s))
        × ((k : Str) → k ≢ j → W.num_requeues k (W.add_rate_limited j s) ≡ W.num_requeues k s)

module _ (W : Worker) (laws : QueueLaws W) (names : ConfigNames) where
  left : W.State → ℕ
  left s = budget (λ k. W.num_requeues k s) (laws.waiting s)

  -- The same keys wait, with the same numbers.
  abbrev Same : W.State → W.State → Type 0
  Same s s' =
      (laws.waiting s' ≡ laws.waiting s) × ((k : Str) → W.num_requeues k s' ≡ W.num_requeues k s)

  left-Same : (s s' : W.State) → Same s s' → left s' ≡ left s
  unfolding left
  left-Same s s' (e, c) =
      ap (budget (λ k. W.num_requeues k s')) e
      ∙ budget-eq (λ k. W.num_requeues k s) (λ k. W.num_requeues k s') (laws.waiting s) c

  process_split-Same :
      (o : Option (Str × Str)) (a : Auth) (s : W.State) → Same s (process_split W names o a s).1.1
  process_split-Same none a s = (refl, λ k. refl)
  process_split-Same (some (namespace, name)) a s = laws.read_waits namespace name s

  forget-left :
      (key : Str) (s : W.State)
      → contains (laws.waiting s) key ≡ false
      → left (W.forget key s) ≡ left s
  unfolding left
  forget-left key s h =
      let (e, c) = laws.forget_waits key s in
      ap (budget (λ k. W.num_requeues k (W.forget key s))) e
      ∙ budget-same (λ k. W.num_requeues k s) (λ k. W.num_requeues k (W.forget key s)) key
          (laws.waiting s) h c

  added-left :
      (key : Str) (s : W.State)
      → contains (laws.waiting s) key ≡ false
      → W.num_requeues key s < max_retries
      → left (W.add_rate_limited key s) ≤ left s + (max_retries - W.num_requeues key s)
  unfolding left
  added-left key s h few =
      let (e, n, c) = laws.added_waits key s h in
      let count = λ (k : Str). W.num_requeues k (W.add_rate_limited key s) in
      let split : budget count (laws.waiting (W.add_rate_limited key s))
          ≡ budget count (laws.waiting s) + budget count (key ∷ []) =
        ap (budget count) e ∙ budget-append count (laws.waiting s) (key ∷ []) in
      let same = budget-same (λ k. W.num_requeues k s) count key (laws.waiting s) h c in
      omega (arith, split, same, n)

  after_item-left :
      (fine : Bool) (key : Str) (s : W.State)
      → contains (laws.waiting s) key ≡ false
      → left (after_item W names fine key s) ≤ left s + (max_retries - W.num_requeues key s)
  after_item-left true key s h = omega (arith, forget-left key s h)
  after_item-left false key s h = elim (Bool-cases (ltb (W.num_requeues key s) max_retries)) [
    | inl e ↦ rw (e, after_item) (added-left key s h (ltb→lt _ _ e))
    | inr e ↦ rw (e, after_item) (omega (arith, forget-left key s h))
  ]

  taken-left :
      (a : Auth) (key : Str) (s : W.State)
      → contains (laws.waiting s) key ≡ false
      → left (process_next W names (some key) a s).1.1
        ≤ left s + (max_retries - W.num_requeues key s)
  unfolding process_item
  taken-left a key s h =
      let item = process_split W names (W.split_key key) a s in
      let (e, c) = process_split-Same (W.split_key key) a s in
      let there = ap (λ l. contains l key) e ∙ h in
      let same = left-Same s item.1.1 (e, c) in
      let after = after_item W names item.0 key item.1.1 in
      let done = left-Same after (W.finish key after) (laws.finish_waits key after) in
      omega (arith, done, same, c key, after_item-left item.0 key item.1.1 there)

  taken-total :
      (s : W.State) (k : Str) (ks js : List Str)
      → laws.waiting s ≡ ks ++ k ∷ js
      → laws.waiting (W.next s).1 ≡ ks ++ js
      → left s ≡ left (W.next s).1 + suc (max_retries - W.num_requeues k s)
  unfolding left
  taken-total s k ks js e e' =
      let count = λ (x : Str). W.num_requeues x s in
      let before : budget count (laws.waiting s) ≡ budget count ks + budget count (k ∷ js) =
        ap (budget count) e ∙ budget-append count ks (k ∷ js) in
      let after : budget (λ x. W.num_requeues x (W.next s).1) (laws.waiting (W.next s).1)
          ≡ budget count ks + budget count js =
        ap (budget (λ x. W.num_requeues x (W.next s).1)) e'
        ∙ (budget-eq count (λ x. W.num_requeues x (W.next s).1) (ks ++ js) (laws.next_counts s)
            ∙ budget-append count ks js) in
      omega (arith, before, after)

  round-left :
      (a : Auth) (s : W.State)
      → laws.waiting s ≢ []
      → left (process_next_item W names a s).1.1 < left s
  unfolding process_next_item
  round-left a s some_wait =
      let (k, ks, js, n, e, e') = laws.next_takes s some_wait in
      let gone : contains (laws.waiting (W.next s).1) k ≡ false =
        ap (λ l. contains l k) e' ∙ once-rest ks k js (subst AllOnce e (laws.once s)) in
      rw n (
        omega (
          arith,
          taken-left a k (W.next s).1 gone,
          taken-total s k ks js e e',
          laws.next_counts s k,
        ))

  nothing : (ks : List Str) → (ks ≡ []) ⊎ (ks ≢ [])
  nothing [] = inl refl
  nothing (k ∷ ks) = inr (λ h. cc)

  ends_within :
      (b : ℕ) (a : Auth) (s : W.State)
      → left s ≤ b
      → (n : ℕ) × (n ≤ b) × (laws.waiting (rounds W names n a s).1 ≡ [])
  unfolding rounds
  ends_within zero a s h = elim (nothing (laws.waiting s)) [
    | inl e ↦ (0, omega arith, e)
    | inr ne ↦ absurd (omega (arith, round-left a s ne))
  ]
  ends_within (suc b) a s h = elim (nothing (laws.waiting s)) [
    | inl e ↦ (0, omega arith, e)
    | inr ne ↦
        let next = (process_next_item W names a s).1 in
        let (n, le, e) = ends_within b next.0 next.1 (omega (arith, round-left a s ne)) in
        (suc n, omega arith, e)
  ]

  -- Where the work queue keeps what it promises and nobody else adds keys, the worker empties it: after at most
  -- six rounds for each key that waits at the start no key waits, whatever the lister answers in each round.
  pub worker-ends :
      (a : Auth) (s : W.State)
      → (n : ℕ) × (n ≤ 6 * length (laws.waiting s)) × (laws.waiting (rounds W names n a s).1 ≡ [])
  unfolding left
  worker-ends a s =
      let (n, le, e) = ends_within (left s) a s (omega arith) in
      (n, omega (arith, budget-le (λ k. W.num_requeues k s) (laws.waiting s)), e)
