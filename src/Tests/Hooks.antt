-- ===== src/Tests/Hooks.antt =====
-- A repository with two commits, and a message.
use functional_tests.Base.{
  ◌≡◌, ◌↔◌, refl, true, false, none, some, List, [], ◌∷◌, ◌++◌, ◌==◌, text_eq, nat_eq,
  if◌then◌else◌,
}
use functional_tests.Base.Text.{Text, codes, has_substring}
use functional_tests.Hooks.{
  Git, returned, missing, rev_range, either, strip, is_signed, sob, verify_dco, sign_off,
}
use functional_tests.Hooks.Push.{IsPassed, IsStopped, verify_dco_lem}
use functional_tests.Hooks.Message.{sign_off_lem}

abbrev newline : Text
newline = 10 ∷ []

-- The range of the push has the commits `a1`, of someone else, and `b2`, an own one with a sign-off.
abbrev git : Git
git = record {
  config = λ key.
      if key == codes "user.email"
      then some (codes "me@x" ++ newline)
      else some (codes "Me" ++ newline);
  rev_list = λ range.
      if range == codes "old..new"
      then some (codes "a1" ++ newline ++ codes "b2" ++ newline)
      else some (codes "c3" ++ newline);
  author = λ oid. some (if oid == codes "a1" then codes "you@x" else codes "me@x" ++ newline);
  message = λ oid. some (
      if oid == codes "b2"
      then codes "Fix" ++ newline ++ newline ++ codes "Signed-off-by: Me <me@x>"
      else codes "Fix");
}

-- The second line of the input has a range; the first one deletes a branch.
abbrev stdin : List Text
stdin = codes "r 0000000000000000000000000000000000000000 r old" ∷ codes "r new r old" ∷ []

known_email : git.config (codes "user.email") ≡ some (codes "me@x" ++ newline)
unfolding text_eq
known_email = refl

verify_dco_lem_example :
    ((verify_dco git none none none none stdin ≡ returned)
      ↔ IsPassed git
          (strip (codes "me@x" ++ newline))
          (rev_range (either none none) (either none none) stdin))
    × ((oid : Text)
        → verify_dco git none none none none stdin ≡ missing oid
        → IsStopped git
            (strip (codes "me@x" ++ newline))
            oid
            (rev_range (either none none) (either none none) stdin))
verify_dco_lem_example =
    verify_dco_lem git (codes "me@x" ++ newline) none none none none stdin known_email

passes : verify_dco git none none none none stdin ≡ returned
unfolding verify_dco text_eq nat_eq
passes = refl

-- A range of the environment, whose commit has no sign-off.
stops :
    verify_dco git none (some (codes "old")) (some (codes "newer")) none stdin
    ≡ missing (codes "c3")
unfolding verify_dco text_eq nat_eq
stops = refl

known_name : git.config (codes "user.name") ≡ some (codes "Me" ++ newline)
unfolding text_eq
known_name = refl

sign_off_lem_example :
    (after : Text) × (sign_off git (codes "Fix") ≡ some after)
    × (has_substring (sob (strip (codes "Me" ++ newline)) (strip (codes "me@x" ++ newline))) after
        ≡ true)
    × (sign_off git after ≡ some after)
    × (has_substring
            (sob (strip (codes "Me" ++ newline)) (strip (codes "me@x" ++ newline)))
            (codes "Fix")
          ≡ false
        → is_signed after ≡ true)
sign_off_lem_example =
    sign_off_lem git (codes "Me" ++ newline) (codes "me@x" ++ newline) (codes "Fix") known_name
      known_email

signed_message :
    sign_off git (codes "Fix") ≡ some (codes "Fix" ++ newline ++ codes "Signed-off-by: Me <me@x>")
unfolding sign_off text_eq nat_eq has_substring
signed_message = refl
