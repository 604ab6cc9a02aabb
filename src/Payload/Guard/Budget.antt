-- ===== src/Payload/Guard/Budget.antt =====
-- Stopping early against the whole size (framework/large_payload_guard.py).
use mathlib.Core.Path.{ap, subst}
use native.Mathlib.Decide.{dec_le}
use functional_tests.Base.{
  ℕ, ◌+◌, ◌≤◌, ◌<◌, ◌≡◌, refl, List, [], ◌∷◌, arith, ltb, contains, nat_eq, Bool-cases, inl, inr,
  if◌then◌else◌,
}
use functional_tests.Payload.Guard.{
  Object, object, Shape, lazy, text, other, dict, sequence, instance_of, Elements, nil, cons, Pairs,
  end, pair, Sized, deep_size, shape_size, elements_size, pairs_size, param_size_limit_bytes,
  exceeds_size_limit,
}

-- The sum of the sizes of all objects below a value, each counted once.
unfoldable mutual
  pub full_size : Object → List ℕ → Sized
  full_size (object i own shape) seen = full_shape shape i own seen

  pub full_shape : Shape → ℕ → ℕ → List ℕ → Sized
  full_shape lazy i own seen = (0, seen)
  full_shape text i own seen = if contains seen i then (0, seen) else (own, i ∷ seen)
  full_shape other i own seen = if contains seen i then (0, seen) else (own, i ∷ seen)
  full_shape (dict ps) i own seen =
      let loop = full_pairs ps own (i ∷ seen) in if contains seen i then (0, seen) else loop
  full_shape (sequence xs) i own seen =
      let loop = full_elements xs own (i ∷ seen) in if contains seen i then (0, seen) else loop
  full_shape (instance_of fields) i own seen =
      let (size, seen') = full_size fields (i ∷ seen) in
      if contains seen i then (0, seen) else (own + size, seen')

  pub full_elements : Elements → ℕ → List ℕ → Sized
  full_elements nil total seen = (total, seen)
  full_elements (cons x xs) total seen =
      let (size, seen') = full_size x seen in full_elements xs (total + size) seen'

  pub full_pairs : Pairs → ℕ → List ℕ → Sized
  full_pairs end total seen = (total, seen)
  full_pairs (pair k v ps) total seen =
      let (key, seen') = full_size k seen in
      let (item, seen'') = full_size v seen' in full_pairs ps (total + (key + item)) seen''

-- Both are over the budget, or they are the same.
abbrev Agrees : ℕ → Sized → Sized → Type 0
Agrees budget a b = (a.0 ≤ budget → a ≡ b) × (budget < a.0 → budget < b.0)

mutual
  unfolding full_size

  total-le_elements :
      (xs : Elements) (total : ℕ) (seen : List ℕ) → total ≤ (full_elements xs total seen).0
  total-le_elements nil total seen = omega arith
  total-le_elements (cons x xs) total seen =
      let (size, seen') = full_size x seen in
      omega (arith, total-le_elements xs (total + size) seen')

  total-le_pairs : (ps : Pairs) (total : ℕ) (seen : List ℕ) → total ≤ (full_pairs ps total seen).0
  total-le_pairs end total seen = omega arith
  total-le_pairs (pair k v ps) total seen =
      let (key, seen') = full_size k seen in
      let (item, seen'') = full_size v seen' in
      omega (arith, total-le_pairs ps (total + (key + item)) seen'')

Agrees-refl : (budget : ℕ) (a : Sized) → Agrees budget a a
Agrees-refl budget a = (λ _. refl, λ h. h)

-- One element, in a loop that goes on as `next` does.
step-Agrees :
    (budget total : ℕ) (a b rest : Sized) (next : ℕ → List ℕ → Sized)
    → Agrees budget a b
    → ((t : ℕ) (s : List ℕ) → t ≤ (next t s).0)
    → Agrees budget rest (next (total + a.0) a.1)
    → Agrees budget
        (if ltb budget (total + a.0) then (total + a.0, a.1) else rest)
        (next (total + b.0) b.1)
step-Agrees budget total (size, s) (size', s') rest next same grows later =
    elim (Bool-cases (ltb budget (total + size))) [
      | inl over ↦ rw over (
        λ h. absurd (ground arith),
        λ h. elim (dec_le size budget) [
          | yes small ↦
              ground (arith, grows (total + size') s', ap (λ (p : Sized). p.0) (same.0 small))
          | no big ↦ omega (arith, grows (total + size') s', same.1 (omega arith))
        ],
      )
      | inr within ↦
          let e : (size, s) ≡ (size', s') = same.0 (ground arith) in
          rw within (subst (λ (p : Sized). Agrees budget rest (next (total + p.0) p.1)) e later)
    ]

item-Agrees :
    (budget own : ℕ) (a b : Sized)
    → Agrees budget a b
    → Agrees budget (own + a.0, a.1) (own + b.0, b.1)
item-Agrees budget own (size, s) (size', s') (same, over) = (
  λ h. ap (λ (p : Sized). (own + p.0, p.1)) (same (omega arith)),
  λ h. elim (dec_le size budget) [
    | yes small ↦ omega (arith, ap (λ (p : Sized). p.0) (same small))
    | no big ↦ omega (arith, over (omega arith))
  ],
)

-- The size of a key and its value, as that of one element.
pair-Agrees :
    (budget : ℕ) (k k' : Sized) (v v' : List ℕ → Sized)
    → Agrees budget k k'
    → ((s : List ℕ) → Agrees budget (v s) (v' s))
    → Agrees budget (k.0 + (v k.1).0, (v k.1).1) (k'.0 + (v' k'.1).0, (v' k'.1).1)
pair-Agrees budget (key, s) (key', s') v v' same below = elim (dec_le key budget) [
  | yes small ↦
      let e : (key, s) ≡ (key', s') = same.0 small in
      subst (λ (p : Sized). Agrees budget (key + (v s).0, (v s).1) (p.0 + (v' p.1).0, (v' p.1).1)) e
        (item-Agrees budget key (v s) (v' s) (below s))
  | no big ↦ (λ h. absurd (omega arith), λ h. omega (arith, same.1 (omega arith)))
]

mutual
  unfolding deep_size full_size

  object-Agrees :
      (budget : ℕ) (x : Object) (seen : List ℕ)
      → Agrees budget (deep_size x seen budget) (full_size x seen)
  object-Agrees budget (object i own shape) seen = shape-Agrees budget shape i own seen

  shape-Agrees :
      (budget : ℕ) (x : Shape) (i own : ℕ) (seen : List ℕ)
      → Agrees budget (shape_size x i own seen budget) (full_shape x i own seen)
  shape-Agrees budget lazy i own seen = Agrees-refl budget (0, seen)
  shape-Agrees budget text i own seen =
      Agrees-refl budget (if contains seen i then (0, seen) else (own, i ∷ seen))
  shape-Agrees budget other i own seen =
      Agrees-refl budget (if contains seen i then (0, seen) else (own, i ∷ seen))
  shape-Agrees budget (dict ps) i own seen = elim (Bool-cases (contains seen i)) [
    | inl old ↦ rw old (Agrees-refl budget (0, seen))
    | inr new ↦ rw new (pairs_agree budget ps own (i ∷ seen))
  ]
  shape-Agrees budget (sequence xs) i own seen = elim (Bool-cases (contains seen i)) [
    | inl old ↦ rw old (Agrees-refl budget (0, seen))
    | inr new ↦ rw new (elements_agree budget xs own (i ∷ seen))
  ]
  shape-Agrees budget (instance_of fields) i own seen = elim (Bool-cases (contains seen i)) [
    | inl old ↦ rw old (Agrees-refl budget (0, seen))
    | inr new ↦ rw new (item-Agrees budget own _ _ (object-Agrees budget fields (i ∷ seen)))
  ]

  elements_agree :
      (budget : ℕ) (xs : Elements) (total : ℕ) (seen : List ℕ)
      → Agrees budget (elements_size xs total seen budget) (full_elements xs total seen)
  elements_agree budget nil total seen = Agrees-refl budget (total, seen)
  elements_agree budget (cons x xs) total seen =
      step-Agrees budget total (deep_size x seen budget) (full_size x seen) _ (full_elements xs)
        (object-Agrees budget x seen) (total-le_elements xs) (elements_agree budget xs _ _)

  pairs_agree :
      (budget : ℕ) (ps : Pairs) (total : ℕ) (seen : List ℕ)
      → Agrees budget (pairs_size ps total seen budget) (full_pairs ps total seen)
  pairs_agree budget end total seen = Agrees-refl budget (total, seen)
  pairs_agree budget (pair k v ps) total seen =
      step-Agrees budget total _ _ _ (full_pairs ps)
        (pair-Agrees budget (deep_size k seen budget) (full_size k seen) (λ s. deep_size v s budget)
          (full_size v) (object-Agrees budget k seen) (λ s. object-Agrees budget v s))
        (total-le_pairs ps) (pairs_agree budget ps _ _)

same_test : (budget : ℕ) (a b : Sized) → Agrees budget a b → ltb budget a.0 ≡ ltb budget b.0
same_test budget a b (same, over) = elim (dec_le a.0 budget) [
  | yes small ↦ ap (λ (p : Sized). ltb budget p.0) (same small)
  | no big ↦ ground (arith, over (omega arith))
]

-- Stopping early does not change the answer: a value is over the limit exactly if the sizes of all
-- objects below it, each counted once and a `Lazy` as nothing, add up to more than the limit.
pub exceeds_size_limit_lem :
    (value : Object) → exceeds_size_limit value ≡ ltb param_size_limit_bytes (full_size value []).0
unfolding exceeds_size_limit
exceeds_size_limit_lem value =
    same_test param_size_limit_bytes _ _ (object-Agrees param_size_limit_bytes value [])
