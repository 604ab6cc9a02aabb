-- ===== src/Hooks.antt =====
-- The Git hooks: hooks/verify_dco.py, which checks pushed commits for a sign-off, and
-- hooks/sign_off.py, which adds it to a message. What `git` prints is a parameter, `none` where it
-- ends by an error.
pub mod Dco
pub mod Push
pub mod Message
use functional_tests.Base.{
  ℕ, Bool, true, false, not, ◌&&◌, ◌||◌, Option, none, some, List, [], ◌∷◌, ◌++◌, any, contains,
  ◌==◌, nat_eq, text_eq, leb, if◌then◌else◌,
}
use functional_tests.Base.Text.{Text, codes, starts_with, has_substring, is_space}
use functional_tests.Render.Sections.{rstrip}
use functional_tests.Analyzer.Extract.{strip_space}

abbrev pub push : ℕ → List Text → List Text
push c [] = (c ∷ []) ∷ []
push c (t ∷ ts) = (c ∷ t) ∷ ts

-- `text.strip()`
unfoldable pub strip : Text → Text
unfolding rstrip strip_space
strip s = rstrip (strip_space s)

-- The characters at which `splitlines` breaks, with `"\r\n"` as one.
unfoldable pub is_break : ℕ → Bool
unfolding nat_eq
is_break c =
    leb 10 c && leb c 13 || leb 28 c && leb c 30 || contains (0x85 ∷ 0x2028 ∷ 0x2029 ∷ []) c

unfoldable pub starts_lf : Text → Bool
unfolding nat_eq
starts_lf [] = false
starts_lf (c ∷ s) = c == 10

unfoldable pub splitlines : Text → List Text
unfolding is_break starts_lf nat_eq
splitlines [] = []
splitlines (c ∷ s) =
    let rest = splitlines s in
    if c == 13 && starts_lf s then rest else if is_break c then [] ∷ rest else push c rest

unfoldable pub in_word : Text → Bool
unfolding is_space
in_word [] = false
in_word (c ∷ s) = not (is_space c)

-- `line.split()`
unfoldable pub split_words : Text → List Text
unfolding is_space in_word
split_words [] = []
split_words (c ∷ s) =
    let rest = split_words s in
    if is_space c then rest else if in_word s then push c rest else (c ∷ []) ∷ rest

-- `os.environ.get(a) or os.environ.get(b)`, with the empty text for none.
abbrev pub either : Option Text → Option Text → Text
either none none = []
either none (some t) = t
either (some []) none = []
either (some []) (some t) = t
either (some (c ∷ s)) _ = c ∷ s

abbrev pub null : Text
null = codes "0000000000000000000000000000000000000000"

-- The range of a line, or `none` where the loop goes on.
unfoldable pub line_range : List Text → Option Text
unfolding text_eq
line_range (_ ∷ local_oid ∷ _ ∷ remote_oid ∷ _) =
    if local_oid == null
    then none
    else some (if remote_oid == null then local_oid else remote_oid ++ codes ".." ++ local_oid)
line_range _ = none

-- The first line with a range; `none` is the `else` of the loop.
unfoldable pub stdin_range : List Text → Option Text
unfolding line_range split_words
stdin_range [] = none
stdin_range (line ∷ lines) =
    let rest = stdin_range lines in
    elim (line_range (split_words line)) [ none ↦ rest | some range ↦ some range ]

unfoldable pub rev_range : Text → Text → List Text → Option Text
unfolding stdin_range
rev_range (c ∷ from_ref) (d ∷ to_ref) stdin = some (c ∷ from_ref ++ codes ".." ++ d ∷ to_ref)
rev_range _ _ stdin = stdin_range stdin

unfoldable pub sign_prefix : Text
sign_prefix = codes "Signed-off-by: "

unfoldable pub is_signed : Text → Bool
unfolding splitlines sign_prefix
is_signed msg = any (λ line. starts_with line sign_prefix) (splitlines msg)

-- The hook returns, ends with status 1 and the commit that it names, or by the error of a call.
pub data Exit : Type 0 where
  returned : Exit
  missing : Text → Exit
  failed : Exit

-- What `git` prints of the configuration, of a range, and of the author and message of a commit.
pub record Git : Type 0 where
  pub config : Text → Option Text
  pub rev_list : Text → Option Text
  pub author : Text → Option Text
  pub message : Text → Option Text

abbrev pub signed_or : Text → Option Text → Exit → Exit
signed_or oid none rest = failed
signed_or oid (some msg) rest = if is_signed msg then rest else missing oid

abbrev pub own_or : Git → Text → Text → Option Text → Exit → Exit
own_or git my_email oid none rest = failed
own_or git my_email oid (some author) rest =
    if strip author == my_email then signed_or oid (git.message oid) rest else rest

-- The loop over the commits; the result of a call that the code does not reach is not used.
unfoldable pub check_commits : Git → Text → List Text → Exit
unfolding strip text_eq is_signed
check_commits git my_email [] = returned
check_commits git my_email ([] ∷ oids) = check_commits git my_email oids
check_commits git my_email ((c ∷ oid) ∷ oids) =
    own_or git my_email (c ∷ oid) (git.author (c ∷ oid)) (check_commits git my_email oids)

abbrev pub on_list : Git → Text → Option Text → Exit
on_list git my_email none = failed
on_list git my_email (some out) = check_commits git my_email (splitlines (strip out))

abbrev pub on_range : Git → Text → Option Text → Exit
on_range git my_email none = returned
on_range git my_email (some range) = on_list git my_email (git.rev_list range)

abbrev pub on_email : Git → Option Text → Option Text → Exit
on_email git none range = failed
on_email git (some email) range = on_range git (strip email) range

-- `main` of verify_dco.py, with the four variables of the environment and the lines of stdin.
unfoldable pub verify_dco :
    Git → Option Text → Option Text → Option Text → Option Text → List Text → Exit
unfolding rev_range check_commits splitlines strip
verify_dco git from_ref source to_ref origin stdin =
    on_email git (git.config (codes "user.email"))
      (rev_range (either from_ref source) (either to_ref origin) stdin)

abbrev pub sob : Text → Text → Text
sob name email = sign_prefix ++ (name ++ (codes " <" ++ (email ++ codes ">")))

unfoldable pub with_sob : Text → Text → Text
with_sob line contents = if has_substring line contents then contents else contents ++ 10 ∷ line

abbrev pub signed_text : Option Text → Option Text → Text → Option Text
signed_text none email contents = none
signed_text (some name) none contents = none
signed_text (some name) (some email) contents =
    some (with_sob (sob (strip name) (strip email)) contents)

-- `main` of sign_off.py: what the message's file holds afterwards, or `none` where git fails.
unfoldable pub sign_off : Git → Text → Option Text
unfolding with_sob strip sign_prefix
sign_off git contents =
    signed_text (git.config (codes "user.name")) (git.config (codes "user.email")) contents
