-- ===== src/Hooks/Message.antt =====
-- What `sign_off.py` leaves in the message, and that `verify_dco.py` takes it.
use functional_tests.Base.{
  ℕ, ◌≡◌, refl, ap, ◌∙◌, Bool, true, false, some, List, [], ◌∷◌, ◌++◌, any, nat_eq, arith, ◌==◌,
  ◌&&◌, if◌then◌else◌, Bool-cases, inl, inr,
}
use functional_tests.Base.Text.{Text, codes, starts_with, has_substring}
use functional_tests.Hooks.{
  is_break, starts_lf, splitlines, sign_prefix, is_signed, Git, strip, sob, with_sob, sign_off,
  push,
}

starts_with_refl : (s : Text) → starts_with s s ≡ true
starts_with_refl [] = refl
starts_with_refl (c ∷ s) = ground (arith, starts_with_refl s)

has_substring-append : (s t : Text) → has_substring t (s ++ t) ≡ true
unfolding has_substring
has_substring-append [] [] = refl
has_substring-append [] (c ∷ t) = ground (arith, starts_with_refl (c ∷ t))
has_substring-append (c ∷ s) t = ground (arith, has_substring-append s t)

has_substring-after : (s t : Text) (c : ℕ) → has_substring t (s ++ c ∷ t) ≡ true
unfolding has_substring
has_substring-after [] t c = ground (arith, has_substring-append [] t)
has_substring-after (a ∷ s) t c = ground (arith, has_substring-after s t c)

abbrev after_first : List Text → List Text
after_first [] = []
after_first (_ ∷ ts) = ts

abbrev signs : Text → Bool
signs line = starts_with line sign_prefix

any-after_first : (ts : List Text) → any signs (after_first ts) ≡ true → any signs ts ≡ true
any-after_first [] h = h
any-after_first (t ∷ ts) h = ground (arith, h)

abbrev push_all : Text → List Text → List Text
push_all [] ts = ts
push_all (c ∷ s) ts = push c (push_all s ts)

-- The three ways in which a character joins the lines after it.
any-line_step :
    (whole ends : Bool) (c : ℕ) (ts : List Text)
    → any signs (after_first ts) ≡ true
    → any signs (after_first (if whole then ts else if ends then [] ∷ ts else push c ts)) ≡ true
any-line_step true ends c ts h = h
any-line_step false true c ts h = any-after_first ts h
any-line_step false false c [] h = h
any-line_step false false c (t ∷ ts) h = h

-- A line that is begun stays the first one: what follows the first line break is not changed.
splitlines-after_first :
    (s t : Text)
    → any signs (splitlines t) ≡ true
    → any signs (after_first (splitlines (s ++ 10 ∷ t))) ≡ true
unfolding splitlines is_break nat_eq
splitlines-after_first [] t h = h
splitlines-after_first (c ∷ s) t h =
    any-line_step (c == 13 && starts_lf (s ++ 10 ∷ t)) (is_break c) c (splitlines (s ++ 10 ∷ t))
      (splitlines-after_first s t h)

-- A line with the prefix, whatever follows it.
signs-push_all : (ts : List Text) → any signs (push_all sign_prefix ts) ≡ true
unfolding sign_prefix nat_eq
signs-push_all [] = refl
signs-push_all (t ∷ ts) = refl

splitlines-sign_prefix : (rest : Text) → any signs (splitlines (sign_prefix ++ rest)) ≡ true
unfolding splitlines sign_prefix
splitlines-sign_prefix rest = signs-push_all (splitlines rest)

with_sob-signed :
    (name email contents : Text)
    → has_substring (sob name email) contents ≡ false
    → is_signed (with_sob (sob name email) contents) ≡ true
unfolding with_sob is_signed
with_sob-signed name email contents lacks = rw lacks (
    any-after_first (splitlines (contents ++ 10 ∷ sob name email)) (
      splitlines-after_first contents (sob name email)
        (splitlines-sign_prefix (name ++ (codes " <" ++ (email ++ codes ">"))))))

with_sob-contains : (line contents : Text) → has_substring line (with_sob line contents) ≡ true
unfolding with_sob
with_sob-contains line contents = elim (Bool-cases (has_substring line contents)) [
  | inl present ↦ rw present present
  | inr lacks ↦ rw lacks (has_substring-after contents line 10)
]

with_sob-with_sob :
    (line contents : Text) → with_sob line (with_sob line contents) ≡ with_sob line contents
unfolding with_sob
with_sob-with_sob line contents = rw (with_sob-contains line contents) refl

-- Where git knows a name and an address, the message afterwards contains the line of sign-off, a
-- second run of the hook leaves it as it is, and a message that the hook had to sign is one that
-- `verify_dco.py` takes.
pub sign_off_lem :
    (git : Git) (name email contents : Text)
    → git.config (codes "user.name") ≡ some name
    → git.config (codes "user.email") ≡ some email
    → (after : Text) × (sign_off git contents ≡ some after)
      × (has_substring (sob (strip name) (strip email)) after ≡ true)
      × (sign_off git after ≡ some after)
      × (has_substring (sob (strip name) (strip email)) contents ≡ false → is_signed after ≡ true)
unfolding sign_off
sign_off_lem git name email contents known_name known_email = (
  with_sob line contents,
  run contents,
  with_sob-contains line contents,
  run (with_sob line contents) ∙ ap some (with_sob-with_sob line contents),
  with_sob-signed (strip name) (strip email) contents,
)
  where
    line : Text
    line = sob (strip name) (strip email)

    run : (c : Text) → sign_off git c ≡ some (with_sob line c)
    run c = rw known_name (rw known_email refl)
