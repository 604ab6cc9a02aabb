-- ===== src/Render/Tree/Nesting.antt =====
-- How the folders of the feature breakdown nest (compatibility/result_analyzer/render_markdown.py).
use mathlib.Core.Path.{subst}
use functional_tests.Base.{
  ℕ, zero, suc, ◌+◌, ◌≡◌, refl, sym, ap, ◌∙◌, Bool, true, false, not, ◌&&◌, Option, none, some,
  List, [], ◌∷◌, ◌++◌, map, ◌==◌, text_eq, nat_eq, all, add_zero, arith, if◌then◌else◌,
}
use functional_tests.Base.Text.{Text, codes}
use functional_tests.Ast.{concat}
use functional_tests.Render.Tree.{precedes, place, sort}

-- A line's effect on the number of open `<details>` and on the number that were opened; `none` is a
-- `</details>` that none is open for.
abbrev pub Depth : Type 0
Depth = Option (ℕ × ℕ)

abbrev closing : ℕ → ℕ → Depth
closing zero opened = none
closing (suc k) opened = some (k, opened)

unfoldable pub step : Text → ℕ → ℕ → Depth
step line k opened =
    if line == codes "<details>"
    then some (suc k, suc opened)
    else if line == codes "</details>"
    then closing k opened
    else some (k, opened)

abbrev pub and_then : (ℕ → ℕ → Depth) → Depth → Depth
and_then f none = none
and_then f (some (k, opened)) = f k opened

unfoldable pub scan : List Text → ℕ → ℕ → Depth
scan [] k opened = some (k, opened)
scan (line ∷ lines) k opened = and_then (scan lines) (step line k opened)

-- The lines open a number of `<details>`, and close each of them and no other.
abbrev pub Nested : List Text → ℕ → Type 0
Nested lines n = (k opened : ℕ) → scan lines k opened ≡ some (k, opened + n)

and_then-scan :
    (xs ys : List Text) (d : Depth)
    → ((k opened : ℕ) → scan (xs ++ ys) k opened ≡ and_then (scan ys) (scan xs k opened))
    → and_then (scan (xs ++ ys)) d ≡ and_then (scan ys) (and_then (scan xs) d)
and_then-scan xs ys none appended = refl
and_then-scan xs ys (some (k, opened)) appended = appended k opened

pub scan-append :
    (xs ys : List Text) (k opened : ℕ)
    → scan (xs ++ ys) k opened ≡ and_then (scan ys) (scan xs k opened)
unfolding scan
scan-append [] ys k opened = refl
scan-append (x ∷ xs) ys k opened = and_then-scan xs ys (step x k opened) (scan-append xs ys)

pub append-Nested :
    (xs ys : List Text) (m n : ℕ) → Nested xs m → Nested ys n → Nested (xs ++ ys) (m + n)
append-Nested xs ys m n h g k opened =
    scan-append xs ys k opened
    ∙ ap (and_then (scan ys)) (h k opened)
    ∙ g k (opened + m)
    ∙ ap (λ o. some (k, o)) (omega arith)

-- A line that is no tag of a `<details>`.
abbrev pub plain : Text → Bool
plain line = not (line == codes "<details>") && not (line == codes "</details>")

plain-Nested :
    (line : Text) (lines : List Text) (n : ℕ)
    → plain line ≡ true
    → Nested lines n
    → Nested (line ∷ lines) n
unfolding scan step
plain-Nested line lines n is_plain h k opened = ground (arith, is_plain, h k opened)

pub all-plain-Nested : (lines : List Text) → all plain lines ≡ true → Nested lines 0
unfolding scan
all-plain-Nested [] _ = λ k opened. ap (λ o. some (k, o)) (sym (add_zero opened))
all-plain-Nested (line ∷ lines) h =
    plain-Nested line lines 0 (ground (arith, h)) (all-plain-Nested lines (ground (arith, h)))

module _ {A : Type 0} (p : A → Bool) where
  pub all-append : (xs ys : List A) → all p (xs ++ ys) ≡ (all p xs && all p ys)
  all-append [] ys = refl
  all-append (x ∷ xs) ys = ground (arith, all-append xs ys)

place-plain :
    (x : Text × Text) (xs : List (Text × Text))
    → all (λ (y : Text × Text). plain y.1) (place x xs)
      ≡ (plain x.1 && all (λ (y : Text × Text). plain y.1) xs)
unfolding place
place-plain x [] = refl
place-plain x (y ∷ ys) = ground (arith, place-plain x ys)

pub sort-plain :
    (xs : List (Text × Text))
    → all (λ (y : Text × Text). plain y.1) (sort xs) ≡ all (λ (y : Text × Text). plain y.1) xs
unfolding sort
sort-plain [] = refl
sort-plain (x ∷ xs) = ground (arith, place-plain x (sort xs), sort-plain xs)

-- Texts with the numbers of the `<details>` in each.
unfoldable pub Blocks : List (Text × List Text) → ℕ → Type 0
Blocks [] n = n ≡ 0
Blocks (x ∷ xs) n = (m : ℕ) × (r : ℕ) × Nested x.1 m × Blocks xs r × (n ≡ m + r)

place-Blocks :
    (x : Text × List Text) (xs : List (Text × List Text)) (m r : ℕ)
    → Nested x.1 m
    → Blocks xs r
    → Blocks (place x xs) (m + r)
unfolding place Blocks
place-Blocks x [] m r h none_left = (m, 0, h, refl, ap (λ i. m + i) none_left)
place-Blocks x (y ∷ ys) m r h (i, j, g, rest, e) =
    go (precedes x.0 y.0) (place-Blocks x ys m j h rest)
  where
    go :
        (b : Bool)
        → Blocks (place x ys) (m + j)
        → Blocks (if b then x ∷ y ∷ ys else y ∷ place x ys) (m + r)
    go true placed = (m, r, h, (i, j, g, rest, e), refl)
    go false placed = (i, m + j, g, placed, omega (arith, e))

pub sort-Blocks : (xs : List (Text × List Text)) (n : ℕ) → Blocks xs n → Blocks (sort xs) n
unfolding sort Blocks
sort-Blocks [] n h = h
sort-Blocks (x ∷ xs) n (m, r, h, rest, e) =
    subst (Blocks (place x (sort xs))) (sym e)
      (place-Blocks x (sort xs) m r h (sort-Blocks xs r rest))

pub concat-Blocks :
    (xs : List (Text × List Text)) (n : ℕ)
    → Blocks xs n
    → Nested (concat (map (λ (p : Text × List Text). p.1) xs)) n
unfolding Blocks concat scan
concat-Blocks [] n h = λ k opened. ap (λ o. some (k, o)) (omega (arith, h))
concat-Blocks (x ∷ xs) n (m, r, h, rest, e) =
    subst (Nested (x.1 ++ concat (map (λ (p : Text × List Text). p.1) xs))) (sym e) (
      append-Nested x.1 (concat (map (λ (p : Text × List Text). p.1) xs)) m r h
        (concat-Blocks xs r rest))
