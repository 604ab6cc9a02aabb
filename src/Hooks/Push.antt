-- ===== src/Hooks/Push.antt =====
-- Which pushes `verify_dco.py` lets pass.
use functional_tests.Base.{
  ◌≡◌, ◌↔◌, ◌⊎◌, inl, inr, refl, sym, ap, ◌∙◌, Option, none, some, List, text_eq, arith,
}
use functional_tests.Base.Text.{Text, codes}
use functional_tests.Hooks.{
  strip, splitlines, rev_range, either, returned, missing, Git, on_list, on_range, on_email,
  verify_dco,
}
use functional_tests.Hooks.Dco.{
  IsAccepted, All, FirstUnsigned, check_commits-returned, check_commits-All, check_commits-missing,
}

module _ (git : Git) (my_email : Text) where
  -- What `git` prints of the range is a list of commits that the hook passes, or stops at.
  abbrev IsPassedList : Option Text → Type 0
  IsPassedList answer =
      (out : Text) × (answer ≡ some out) × All (IsAccepted git my_email) (splitlines (strip out))

  abbrev IsStoppedList : Text → Option Text → Type 0
  IsStoppedList oid answer =
      (out : Text) × (answer ≡ some out) × FirstUnsigned git my_email oid (splitlines (strip out))

  abbrev pub IsPassed : Option Text → Type 0
  IsPassed range = (range ≡ none) ⊎ ((r : Text) × (range ≡ some r) × IsPassedList (git.rev_list r))

  abbrev pub IsStopped : Text → Option Text → Type 0
  IsStopped oid range = (r : Text) × (range ≡ some r) × IsStoppedList oid (git.rev_list r)

  on_list-returned :
      (answer : Option Text) → on_list git my_email answer ≡ returned → IsPassedList answer
  on_list-returned none h = absurd (ground (arith, h))
  on_list-returned (some out) h = (out, refl, check_commits-returned git my_email _ h)

  on_list-missing :
      (oid : Text) (answer : Option Text)
      → on_list git my_email answer ≡ missing oid
      → IsStoppedList oid answer
  on_list-missing oid none h = absurd (ground (arith, h))
  on_list-missing oid (some out) h = (out, refl, check_commits-missing git my_email oid _ h)

  on_range-returned :
      (range : Option Text) → on_range git my_email range ≡ returned → IsPassed range
  on_range-returned none h = inl refl
  on_range-returned (some r) h = inr (r, refl, on_list-returned (git.rev_list r) h)

  on_range-IsPassed :
      (range : Option Text) → IsPassed range → on_range git my_email range ≡ returned
  on_range-IsPassed range (inl nothing) = rw nothing refl
  on_range-IsPassed range (inr (r, found, (out, printed, accepted))) =
      rw found (rw printed (check_commits-All git my_email (splitlines (strip out)) accepted))

  on_range-missing :
      (oid : Text) (range : Option Text)
      → on_range git my_email range ≡ missing oid
      → IsStopped oid range
  on_range-missing oid none h = absurd (ground (arith, h))
  on_range-missing oid (some r) h = (r, refl, on_list-missing oid (git.rev_list r) h)

-- The push passes in two cases: there is no range to check, or `git` lists the commits of the range
-- and each is of another author or has a line of sign-off. Where the hook names a commit instead, it
-- is the first of the list that is not so, an own one whose message has no such line.
pub verify_dco_lem :
    (git : Git) (email : Text) (from_ref source to_ref origin : Option Text) (stdin : List Text)
    → git.config (codes "user.email") ≡ some email
    → ((verify_dco git from_ref source to_ref origin stdin ≡ returned)
        ↔ IsPassed git
            (strip email)
            (rev_range (either from_ref source) (either to_ref origin) stdin))
      × ((oid : Text)
          → verify_dco git from_ref source to_ref origin stdin ≡ missing oid
          → IsStopped git
              (strip email)
              oid
              (rev_range (either from_ref source) (either to_ref origin) stdin))
unfolding verify_dco
verify_dco_lem git email from_ref source to_ref origin stdin known = (
  (
    λ h. on_range-returned git (strip email) range (sym entry ∙ h),
    λ passed. entry ∙ on_range-IsPassed git (strip email) range passed,
  ),
  λ oid h. on_range-missing git (strip email) oid range (sym entry ∙ h),
)
  where
    range : Option Text
    range = rev_range (either from_ref source) (either to_ref origin) stdin

    entry : verify_dco git from_ref source to_ref origin stdin ≡ on_range git (strip email) range
    entry = ap (λ answer. on_email git answer range) known
