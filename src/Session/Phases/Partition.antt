-- ===== src/Session/Phases/Partition.antt =====
-- The tests of the two phases: which the first one leaves to the second
-- (`pytest_collection_modifyitems` and `pytest_sessionfinish` of conftest.py).
use Prim.Native.String.append.{cons}
use mathlib.Core.Path.{fun_ext}
use mathlib.Core.List.{Permᴰ}
use functional_tests.Base.{
  false, Option, some, none, refl, if◌then◌else◌, String, ◌<>◌, ◌≡◌, sym, subst, ap, ◌∙◌, Bool,
  true, not, ◌&&◌, List, ◌∷◌, ◌++◌, select, drop, arith, string_eq, ◌==◌, Bool-cases, inl, inr,
}
use functional_tests.Base.Perm.{Permᴰ-select, select-select}
use functional_tests.Session.Gate.{Item, parallel_items}
use functional_tests.Session.Phases.{Config, phase_2_command}

-- The expression after `-m`.
abbrev pub expression : List String → String
expression (_ ∷ e ∷ _) = e
expression _ = ""

abbrev pub everything : Item → Bool
everything _ = true

-- The items of the marker among those selected.
abbrev pub in_phase_2 : (Item → Bool) → Item → Bool
in_phase_2 p i = i.no_parallel && p i

-- What `-m` selects: all without an expression. `compile` is pytest's reading of one, `none` for a
-- text that is no expression.
abbrev pub selected : (String → Option (Item → Bool)) → String → Option (Item → Bool)
selected compile e = if e == "" then some everything else compile e

abbrev is_blank : String → Bool
is_blank String.[] = true
is_blank (String.◌∷◌ c s) = false

-- A conjunction is not the empty text.
not_empty : (e : String) → (("no_parallel and (" <> e) == "") ≡ false
not_empty e = elim (Bool-cases (("no_parallel and (" <> e) == "")) [
  | inl h ↦
      let same : "no_parallel and (" <> e ≡ "" = ground (arith, h) in
      let shown : false ≡ true = ap is_blank (sym (cons "n" "o_parallel and (" e) ∙ same) in
      absurd (ground (arith, shown))
  | inr h ↦ h
]

name_not_empty : (◌==◌ {A = String} "no_parallel" "") ≡ false
unfolding string_eq
name_not_empty = refl

-- Without an expression all items are selected.
all_selected : (p : Item → Bool) → some everything ≡ some p → in_phase_2 everything ≡ in_phase_2 p
all_selected p h =
    ap in_phase_2 (ap (λ (o : Option (Item → Bool)). elim o [ none ↦ p | some q ↦ q ]) h)

marked_alone : (λ (i : Item). i.no_parallel) ≡ in_phase_2 everything
marked_alone = fun_ext (λ i. ground arith)

module _ (compile : String → Option (Item → Bool)) (c : Config)
    (executable temp_json temp_junit : String) where
  abbrev phase_2_expression : String
  phase_2_expression = expression (drop 6 (phase_2_command c executable temp_json temp_junit))

  -- The second phase selects the items of the marker among those of the user's expression.
  selected-phase_2_command :
      compile "no_parallel" ≡ some (λ i. i.no_parallel)
      → ((p : Item → Bool)
          → compile c.markexpr ≡ some p
          → compile ("no_parallel and (" <> (c.markexpr <> ")")) ≡ some (in_phase_2 p))
      → (p : Item → Bool) → selected compile c.markexpr ≡ some p
      → selected compile phase_2_expression ≡ some (in_phase_2 p)
  unfolding phase_2_command
  selected-phase_2_command marked both p first = elim (Bool-cases (c.markexpr == "")) [
    | inl e ↦
        let nothing : some everything ≡ some p = rw e at first in
        rw (e, name_not_empty) (marked ∙ ap some (marked_alone ∙ all_selected p nothing))
    | inr e ↦
        let read : compile c.markexpr ≡ some p = rw e at first in
        rw (e, not_empty (c.markexpr <> ")")) (both p read)
  ]

  pub phase_2_command-parallel_items :
      compile "no_parallel" ≡ some (λ i. i.no_parallel)
      → ((p : Item → Bool)
          → compile c.markexpr ≡ some p
          → compile ("no_parallel and (" <> (c.markexpr <> ")")) ≡ some (in_phase_2 p))
      → (p : Item → Bool) → selected compile c.markexpr ≡ some p
      → (items : List Item)
      → (q : Item → Bool) × (selected compile
            (expression (drop 6 (phase_2_command c executable temp_json temp_junit)))
          ≡ some q)
        × Permᴰ (parallel_items true (select p items) ++ select q items) (select p items)
  unfolding parallel_items
  phase_2_command-parallel_items marked both p first items =
      let parallel = λ (i : Item). i.no_parallel in
      let second = select-select parallel p (in_phase_2 p) (λ i. refl) items in
      (
        in_phase_2 p,
        selected-phase_2_command marked both p first,
        subst (λ xs. Permᴰ (select (λ i. not (parallel i)) (select p items) ++ xs) (select p items))
            (sym second) (Permᴰ-select parallel (select p items)),
      )
