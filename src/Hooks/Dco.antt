-- ===== src/Hooks/Dco.antt =====
-- Which commits `verify_dco.py` lets pass.
use functional_tests.Base.{
  ◌≡◌, ◌≢◌, ◌⊎◌, inl, inr, refl, ap, ◌∙◌, true, false, Option, none, some, List, [], ◌∷◌, ◌++◌,
  text_eq, arith, Bool-cases, subst,
}
use functional_tests.Base.Text.{Text}
use functional_tests.Hooks.{
  strip, is_signed, Exit, returned, missing, Git, signed_or, own_or, check_commits,
}

-- What `git` prints of the message has a line of sign-off.
abbrev pub HasSignOff : Option Text → Type 0
HasSignOff message = (msg : Text) × (message ≡ some msg) × (is_signed msg ≡ true)

-- The author that `git` prints is someone else, or the message has a line of sign-off.
abbrev pub IsAllowed : Git → Text → Text → Option Text → Type 0
IsAllowed git my_email oid answer =
    (author : Text) × (answer ≡ some author)
    × ((strip author ≢ my_email) ⊎ HasSignOff (git.message oid))

abbrev pub IsAccepted : Git → Text → Text → Type 0
IsAccepted git my_email oid = (oid ≡ []) ⊎ IsAllowed git my_email oid (git.author oid)

abbrev pub All : (Text → Type 0) → List Text → Type 0
All P [] = Unit
All P (x ∷ xs) = P x × All P xs

-- An own commit without one.
abbrev LacksSignOff : Option Text → Type 0
LacksSignOff message = (msg : Text) × (message ≡ some msg) × (is_signed msg ≡ false)

abbrev IsRefused : Git → Text → Text → Option Text → Type 0
IsRefused git my_email oid answer =
    ((author : Text) × (answer ≡ some author) × (strip author ≡ my_email))
    × LacksSignOff (git.message oid)

abbrev pub IsUnsigned : Git → Text → Text → Type 0
IsUnsigned git my_email oid = IsRefused git my_email oid (git.author oid)

signed_or-returned :
    (oid : Text) (answer : Option Text) (rest : Exit)
    → signed_or oid answer rest ≡ returned
    → HasSignOff answer × (rest ≡ returned)
signed_or-returned oid none rest h = absurd (ground (arith, h))
signed_or-returned oid (some msg) rest h = ((msg, refl, ground (arith, h)), ground (arith, h))

signed_or-HasSignOff :
    (oid : Text) (answer : Option Text) (rest : Exit)
    → HasSignOff answer
    → signed_or oid answer rest ≡ rest
signed_or-HasSignOff oid answer rest (msg, said, signed) = rw said (rw signed)

signed_or-missing :
    (at oid : Text) (answer : Option Text) (rest : Exit)
    → signed_or at answer rest ≡ missing oid
    → ((at ≡ oid) × LacksSignOff answer) ⊎ (HasSignOff answer × (rest ≡ missing oid))
signed_or-missing at oid none rest h = absurd (ground (arith, h))
signed_or-missing at oid (some msg) rest h = elim (Bool-cases (is_signed msg)) [
  | inl signed ↦ inr ((msg, refl, signed), ground (arith, h, signed))
  | inr lacks ↦ inl (ground (arith, h, lacks), (msg, refl, lacks))
]

module _ (git : Git) (my_email : Text) where
  own_or-returned :
      (oid : Text) (answer : Option Text) (rest : Exit)
      → own_or git my_email oid answer rest ≡ returned
      → IsAllowed git my_email oid answer × (rest ≡ returned)
  own_or-returned oid none rest h = absurd (ground (arith, h))
  own_or-returned oid (some author) rest h = elim (text_eq.dec (strip author) my_email) [
    | yes own ↦
        let (signed, last) = signed_or-returned oid (git.message oid) rest (ground (arith, h)) in
        ((author, refl, inr signed), last)
    | no other ↦ ((author, refl, inl other), ground (arith, h))
  ]

  own_or-IsAllowed :
      (oid : Text) (answer : Option Text) (rest : Exit)
      → IsAllowed git my_email oid answer
      → own_or git my_email oid answer rest ≡ rest
  own_or-IsAllowed oid answer rest (author, found, inl other) = rw found (ground (arith, other))
  own_or-IsAllowed oid answer rest (author, found, inr signed) =
      ground (arith, found, signed_or-HasSignOff oid (git.message oid) rest signed)

  pub check_commits-returned :
      (oids : List Text)
      → check_commits git my_email oids ≡ returned
      → All (IsAccepted git my_email) oids
  unfolding check_commits
  check_commits-returned [] h = tt
  check_commits-returned ([] ∷ oids) h = (inl refl, check_commits-returned oids h)
  check_commits-returned ((c ∷ oid) ∷ oids) h =
      let (allowed, rest) = own_or-returned (c ∷ oid) (git.author (c ∷ oid)) _ h in
      (inr allowed, check_commits-returned oids rest)

  check_commits-IsAccepted :
      (oid : Text) (oids : List Text)
      → IsAccepted git my_email oid
      → check_commits git my_email (oid ∷ oids) ≡ check_commits git my_email oids
  unfolding check_commits
  check_commits-IsAccepted [] oids accepted = refl
  check_commits-IsAccepted (c ∷ oid) oids (inl empty) = absurd (ground (arith, empty))
  check_commits-IsAccepted (c ∷ oid) oids (inr allowed) =
      own_or-IsAllowed (c ∷ oid) (git.author (c ∷ oid)) (check_commits git my_email oids) allowed

  pub check_commits-All :
      (oids : List Text)
      → All (IsAccepted git my_email) oids
      → check_commits git my_email oids ≡ returned
  unfolding check_commits
  check_commits-All [] all = refl
  check_commits-All (oid ∷ oids) (accepted, all) =
      check_commits-IsAccepted oid oids accepted ∙ check_commits-All oids all

  -- The commit that is named is the first one that is not accepted.
  abbrev pub FirstUnsigned : Text → List Text → Type 0
  FirstUnsigned oid oids =
      (before : List Text) × (after : List Text) × (oids ≡ before ++ oid ∷ after)
      × All (IsAccepted git my_email) before
      × IsUnsigned git my_email oid

  own_or-missing :
      (at oid : Text) (answer : Option Text) (rest : Exit)
      → own_or git my_email at answer rest ≡ missing oid
      → ((at ≡ oid) × IsRefused git my_email at answer)
        ⊎ (IsAllowed git my_email at answer × (rest ≡ missing oid))
  own_or-missing at oid none rest h = absurd (ground (arith, h))
  own_or-missing at oid (some author) rest h = elim (text_eq.dec (strip author) my_email) [
    | yes own ↦ elim (signed_or-missing at oid (git.message at) rest (ground (arith, h))) [
      | inl (same, lacks) ↦ inl (same, ((author, refl, own), lacks))
      | inr (signed, last) ↦ inr ((author, refl, inr signed), last)
    ]
    | no other ↦ inr ((author, refl, inl other), ground (arith, h))
  ]

  pub check_commits-missing :
      (oid : Text) (oids : List Text)
      → check_commits git my_email oids ≡ missing oid
      → FirstUnsigned oid oids
  unfolding check_commits
  check_commits-missing oid [] h = absurd (ground (arith, h))
  check_commits-missing oid ([] ∷ oids) h =
      let (before, after, split, accepted, own) = check_commits-missing oid oids h in
      ([] ∷ before, after, ap (λ xs. [] ∷ xs) split, (inl refl, accepted), own)
  check_commits-missing oid ((c ∷ at) ∷ oids) h =
      elim (own_or-missing (c ∷ at) oid (git.author (c ∷ at)) (check_commits git my_email oids) h) [
        | inl (same, own) ↦
            ([], oids, ap (λ x. x ∷ oids) same, tt, subst (IsUnsigned git my_email) same own)
        | inr (allowed, rest) ↦
            let (before, after, split, accepted, own) = check_commits-missing oid oids rest in
            ((c ∷ at) ∷ before, after, ap (λ xs. (c ∷ at) ∷ xs) split, (inr allowed, accepted), own)
      ]
