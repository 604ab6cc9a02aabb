-- ===== src/Analyzer/Extract/Tags.antt =====
-- The bracketed tag of a failure, and how it becomes the failure type (analyzer.py).
use functional_tests.Base.{
  ℕ, ◌≡◌, refl, ap, ◌≢◌, inl, inr, Option-cases, true, false, none, some, [], ◌∷◌, ◌++◌, arith, all,
  contains, nat_eq,
}
use functional_tests.Base.Text.{Text, span, is_tag_char}
use functional_tests.Base.Span.{span-append, all-span, span-run}
use functional_tests.Analyzer.Extract.{tag_of_match, tag_here, search_tag}

-- The tag stands in brackets somewhere in the text.
abbrev pub Bracketed : Text → Text → Type 0
Bracketed tag message =
    (before : Text) × (after : Text) × (message ≡ before ++ b'[' ∷ (tag ++ b']' ∷ after))

bracket_is_no_tag : is_tag_char b']' ≡ false
unfolding is_tag_char
bracket_is_no_tag = refl

tag_of_match-shape :
    (run rest tag : Text)
    → tag_of_match run rest ≡ some tag
    → (after : Text) × (rest ≡ b']' ∷ after) × (run ≡ tag) × (tag ≢ [])
unfolding tag_of_match
tag_of_match-shape [] rest tag h = cc
tag_of_match-shape (a ∷ run) [] tag h = cc
tag_of_match-shape (a ∷ run) (c ∷ rest) tag h = (rest, ground arith, ground arith, ground arith)

tag_here_opens :
    (c : ℕ) (s tag : Text)
    → tag_here (c ∷ s) ≡ some tag
    → (c ≡ b'[') × (tag_of_match (span is_tag_char s).0 (span is_tag_char s).1 ≡ some tag)
unfolding tag_here
tag_here_opens c s tag h = ground arith

tag_here-shape :
    (c : ℕ) (s tag : Text)
    → tag_here (c ∷ s) ≡ some tag
    → (after : Text) × (c ∷ s ≡ b'[' ∷ tag ++ b']' ∷ after)
      × (all is_tag_char tag ≡ true)
      × (tag ≢ [])
tag_here-shape c s tag h =
    let (opens, matched) = tag_here_opens c s tag h in
    let (after, closes, same, some_tag) = tag_of_match-shape _ _ tag matched in
    (
      after,
      cc (opens, span-append is_tag_char s, closes, same),
      rw same at (all-span is_tag_char s),
      some_tag,
    )

-- A tag that is found is a nonempty run of capitals and underscores, in brackets.
search_tag-Bracketed :
    (message : Text)
    → search_tag message ≢ []
    → Bracketed (search_tag message) message × (all is_tag_char (search_tag message) ≡ true)
unfolding search_tag
search_tag-Bracketed [] h = absurd (h refl)
search_tag-Bracketed (c ∷ s) h = elim (Option-cases (tag_here (c ∷ s))) [
  | inl e ↦
      let ((before, after, shape), capitals) = search_tag-Bracketed s (rw (e, search_tag) at h) in
      rw (e, search_tag) ((c ∷ before, after, ap (λ t. c ∷ t) shape), capitals)
  | inr (tag, e) ↦
      let (after, shape, capitals, _) = tag_here-shape c s tag e in
      rw (e, search_tag) (([], after, shape), capitals)
]

tag_here_found :
    (a : ℕ) (run after : Text)
    → all is_tag_char (a ∷ run) ≡ true
    → tag_here (b'[' ∷ (a ∷ run) ++ b']' ∷ after) ≡ some (a ∷ run)
unfolding tag_here tag_of_match nat_eq
tag_here_found a run after h = rw (span-run is_tag_char (a ∷ run) b']' after h bracket_is_no_tag)

tag_here-none : (c : ℕ) (s : Text) → c ≢ b'[' → tag_here (c ∷ s) ≡ none
unfolding tag_here
tag_here-none c s h = ground arith

-- A nonempty run of capitals and underscores in brackets, behind a text with no opening bracket, is
-- the tag that is found.
search_tag_first :
    (before : Text) (a : ℕ) (run after : Text)
    → contains before b'[' ≡ false
    → all is_tag_char (a ∷ run) ≡ true
    → search_tag (before ++ b'[' ∷ (a ∷ (run ++ b']' ∷ after))) ≡ a ∷ run
unfolding search_tag
search_tag_first [] a run after free h = rw (tag_here_found a run after h, search_tag)
search_tag_first (c ∷ before) a run after free h =
    rw (tag_here-none c _ (ground arith), search_tag)
      (search_tag_first before a run after (ground arith) h)
