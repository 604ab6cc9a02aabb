-- ===== src/Ast/Every.antt =====
-- What holds of every node that `ast.walk` meets, by recursion on the tree.
use functional_tests.Base.{
  ◌↔◌, ◌≡◌, refl, ap, Bool, true, false, ◌&&◌, List, [], ◌∷◌, ◌++◌, arith, all,
}
use functional_tests.Ast.{
  Node, name, attribute, constant, call, keyword, list_of, lambda, assertion, function, class_def,
  other, Nodes, nil, cons, zip_append, levels, forest, concat, walk, gather,
}

module _ (p : Node → Bool) where
  unfoldable mutual
    pub every : Node → Bool
    every (name s) = p (name s)
    every (constant c) = p (constant c)
    every (attribute line n s) = p (attribute line n s) && every n
    every (keyword k n) = p (keyword k n) && every n
    every (call line f args keywords) =
        p (call line f args keywords) && every f && every_of args && every_of keywords
    every (list_of ns) = p (list_of ns) && every_of ns
    every (lambda ns) = p (lambda ns) && every_of ns
    every (assertion line ns) = p (assertion line ns) && every_of ns
    every (function line is_async s doc args body decorators) =
        p (function line is_async s doc args body decorators)
        && every_of args
        && every_of body
        && every_of decorators
    every (class_def line body decorators) =
        p (class_def line body decorators) && every_of body && every_of decorators
    every (other line ns) = p (other line ns) && every_of ns

    pub every_of : Nodes → Bool
    every_of nil = true
    every_of (cons n ns) = every n && every_of ns

  all-append : (xs ys : List Node) → all p (xs ++ ys) ≡ (all p xs && all p ys)
  all-append [] ys = refl
  all-append (x ∷ xs) ys = ground (arith, all-append xs ys)

  all-zip_append :
      (xss yss : List (List Node))
      → all p (concat (zip_append xss yss)) ≡ (all p (concat xss) && all p (concat yss))
  unfolding concat zip_append
  all-zip_append [] yss = refl
  all-zip_append (xs ∷ xss) [] = ground arith
  all-zip_append (xs ∷ xss) (ys ∷ yss) = ground (
    arith,
    all-append (xs ++ ys) (concat (zip_append xss yss)),
    all-append xs ys,
    all-append xs (concat xss),
    all-append ys (concat yss),
    all-zip_append xss yss,
  )

  mutual
    unfolding levels every concat

    all-levels : (n : Node) → all p (concat (levels n)) ≡ every n
    all-levels (name s) = ground arith
    all-levels (constant c) = ground arith
    all-levels (attribute line n s) = ground (arith, all-levels n)
    all-levels (keyword k n) = ground (arith, all-levels n)
    all-levels (call line f args keywords) = ground (
      arith,
      all-levels f,
      all-forest args,
      all-forest keywords,
      all-zip_append (levels f) (zip_append (forest args) (forest keywords)),
      all-zip_append (forest args) (forest keywords),
    )
    all-levels (list_of ns) = ground (arith, all-forest ns)
    all-levels (lambda ns) = ground (arith, all-forest ns)
    all-levels (assertion line ns) = ground (arith, all-forest ns)
    all-levels (function line is_async s doc args body decorators) = ground (
      arith,
      all-forest args,
      all-forest body,
      all-forest decorators,
      all-zip_append (forest args) (zip_append (forest body) (forest decorators)),
      all-zip_append (forest body) (forest decorators),
    )
    all-levels (class_def line body decorators) = ground (
      arith,
      all-forest body,
      all-forest decorators,
      all-zip_append (forest body) (forest decorators),
    )
    all-levels (other line ns) = ground (arith, all-forest ns)

    all-forest : (ns : Nodes) → all p (concat (forest ns)) ≡ every_of ns
    all-forest nil = refl
    all-forest (cons n ns) =
        ground (arith, all-levels n, all-forest ns, all-zip_append (levels n) (forest ns))

  -- A test holds of all nodes that are walked exactly if it holds of every node of the tree.
  pub all-walk : (n : Node) → all p (walk n) ≡ every n
  unfolding walk
  all-walk n = all-levels n

abbrev pub is_nil {ℓ} : {A : Type ℓ} → List A → Bool
is_nil [] = true
is_nil (x ∷ xs) = false

pub append-nil_iff {ℓ} : {A : Type ℓ} (xs ys : List A) → (xs ++ ys ≡ []) ↔ ((xs ≡ []) × (ys ≡ []))
append-nil_iff [] ys = (λ h. (refl, h), λ (_, h). h)
append-nil_iff (x ∷ xs) ys = (λ h. cc, λ (h, _). cc)

pub gather-nil {ℓ κ} :
    {A : Type ℓ} {B : Type κ} (f : A → List B) (xs : List A)
    → (gather f xs ≡ []) ↔ (all (λ x. is_nil (f x)) xs ≡ true)
unfolding gather
gather-nil f [] = (λ _. refl, λ _. refl)
gather-nil f (x ∷ xs) = ground (arith, append-nil_iff (f x) (gather f xs), gather-nil f xs)

pub is_nil-append {ℓ} : {A : Type ℓ} (xs ys : List A) → is_nil (xs ++ ys) ≡ (is_nil xs && is_nil ys)
is_nil-append [] ys = refl
is_nil-append (x ∷ xs) ys = refl

pub gather-is_nil {ℓ κ} :
    {A : Type ℓ} {B : Type κ} (f : A → List B) (xs : List A)
    → is_nil (gather f xs) ≡ all (λ x. is_nil (f x)) xs
unfolding gather
gather-is_nil f [] = refl
gather-is_nil f (x ∷ xs) = rw is_nil-append (ap (λ b. is_nil (f x) && b) (gather-is_nil f xs))

-- A walk gathers nothing exactly if no node of the tree has an error.
pub gather-walk {ℓ} :
    {B : Type ℓ} (f : Node → List B) (n : Node)
    → (gather f (walk n) ≡ []) ↔ (every (λ m. is_nil (f m)) n ≡ true)
gather-walk f n = rw (← all-walk) (gather-nil f (walk n))
