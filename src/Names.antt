-- ===== src/Names.antt =====
-- The names of the databases and collections of the tests, and their removal
-- (framework/fixtures.py). The hexadecimal digest of SHA-256 is a parameter.
pub mod Unique
use functional_tests.Base.{
  ℕ, Bool, true, false, not, ◌&&◌, ◌||◌, List, [], ◌∷◌, ◌++◌, map, take, ◌==◌, nat_eq,
  if◌then◌else◌,
}
use functional_tests.Base.Text.{Text, codes, has_substring}

unfoldable push : ℕ → List Text → List Text
push c [] = (c ∷ []) ∷ []
push c (t ∷ ts) = (c ∷ t) ∷ ts

-- `text.split("::")`. The flag tells that the character before is a colon that no piece has yet.
unfoldable pub split_colons : Bool → Text → List Text
unfolding nat_eq push
split_colons held [] = (if held then b':' ∷ [] else []) ∷ []
split_colons held (c ∷ s) =
    let colon = c == b':' in
    let rest = split_colons (colon && not held) s in
    if colon
    then (if held then [] ∷ rest else rest)
    else (if held then push b':' (push c rest) else push c rest)

-- `pieces[-1]`
unfoldable pub last_piece : List Text → Text
last_piece [] = []
last_piece (t ∷ []) = t
last_piece (t ∷ u ∷ ts) = last_piece (u ∷ ts)

unfoldable pub test_name : Text → Text
unfolding has_substring split_colons last_piece
test_name test_id =
    if has_substring (codes "::") test_id then last_piece (split_colons false test_id) else test_id

-- `test_name.replace("[", "_").replace("]", "_")`
unfoldable pub replace_brackets : Text → Text
unfolding nat_eq
replace_brackets s = map (λ c. if c == b'[' || c == b']' then b'_' else c) s

-- `f"{head}{worker_id}_{name_hash}_{abbreviated}"[:limit]`
unfoldable pub name_of : ℕ → Text → Text → Text → Text → Text
name_of limit head worker_id name_hash abbreviated =
    take limit (head ++ worker_id ++ codes "_" ++ name_hash ++ codes "_" ++ abbreviated)

module _ (hexdigest : Text → Text) where
  abbrev pub name_hash : Text → Text
  name_hash test_id = take 8 (hexdigest test_id)

  unfoldable pub generate_database_name : Text → Text → Text
  unfolding name_of test_name replace_brackets
  generate_database_name test_id worker_id =
      name_of 63 (codes "test_") worker_id (name_hash test_id)
        (take 20 (replace_brackets (test_name test_id)))

  unfoldable pub generate_collection_name : Text → Text → Text
  unfolding name_of test_name replace_brackets
  generate_collection_name test_id worker_id =
      name_of 100 (codes "coll_") worker_id (name_hash test_id)
        (take 25 (replace_brackets (test_name test_id)))
