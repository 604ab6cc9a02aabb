-- ===== src/Names/Unique.antt =====
-- Bounds on the generated names, and how they differ (framework/fixtures.py).
use functional_tests.Base.{
  ℕ, zero, suc, ◌+◌, ◌≤◌, ◌≡◌, ◌≢◌, refl, sym, ap, ◌∙◌, List, [], ◌∷◌, ◌++◌, take, drop, length,
  length-append, length-take, arith,
}
use mathlib.Core.List.{append_assoc}
use functional_tests.Base.Text.{Text, codes}
use functional_tests.Names.{name_of, name_hash, generate_database_name, generate_collection_name}

module _ {A : Type 0} where
  length-take_le : (n : ℕ) (xs : List A) → length (take n xs) ≤ n
  length-take_le n xs = omega (arith, length-take n xs)

  -- The part of a name that stands after a prefix and is kept by the truncation.
  take-drop_name :
      (n : ℕ) (p h s : List A)
      → length p + length h ≤ n
      → take (length h) (drop (length p) (take n (p ++ h ++ s))) ≡ h
  take-drop_name n [] [] s fits = refl
  take-drop_name zero [] (x ∷ h) s fits = absurd (omega arith)
  take-drop_name (suc n) [] (x ∷ h) s fits =
      ap (λ xs. x ∷ xs) (take-drop_name n [] h s (omega arith))
  take-drop_name zero (x ∷ p) h s fits = absurd (omega arith)
  take-drop_name (suc n) (x ∷ p) h s fits = take-drop_name n p h s (omega arith)

length-name_of :
    (limit : ℕ) (head worker_id hash rest : Text)
    → length (name_of limit head worker_id hash rest) ≤ limit
unfolding name_of
length-name_of limit head worker_id hash rest =
    length-take_le limit (head ++ worker_id ++ codes "_" ++ hash ++ codes "_" ++ rest)

hash_of-name_of :
    (limit : ℕ) (head worker_id hash rest : Text)
    → length head + length worker_id + 9 ≤ limit
    → length hash ≡ 8
    → take 8
        (drop (length (head ++ worker_id ++ codes "_")) (name_of limit head worker_id hash rest))
      ≡ hash
unfolding name_of
hash_of-name_of limit head worker_id hash rest fits eight =
    let p = head ++ worker_id ++ codes "_" in
    let kept = take-drop_name limit p hash (codes "_" ++ rest) (
      omega (arith, length-append (head ++ worker_id) (codes "_"), length-append head worker_id)) in
    ap (λ s. take 8 (drop (length p) (take limit s))) (append_assoc (p ++ hash) (codes "_") rest)
    ∙ ap (λ n. take n (drop (length p) (take limit (p ++ hash ++ (codes "_" ++ rest))))) (sym eight)
    ∙ kept

name_of-injective :
    (limit : ℕ) (head worker_id hash rest hash' rest' : Text)
    → length head + length worker_id + 9 ≤ limit
    → length hash ≡ 8
    → length hash' ≡ 8
    → name_of limit head worker_id hash rest ≡ name_of limit head worker_id hash' rest'
    → hash ≡ hash'
name_of-injective limit head worker_id hash rest hash' rest' fits eight eight' same =
    sym (hash_of-name_of limit head worker_id hash rest fits eight)
    ∙ ap (λ s. take 8 (drop (length (head ++ worker_id ++ codes "_")) s)) same
    ∙ hash_of-name_of limit head worker_id hash' rest' fits eight'

module _ (hexdigest : Text → Text) where
  -- A name is not longer than the limit of databases, 63, or of collections, 100.
  length-generate_names :
      (test_id worker_id : Text)
      → (length (generate_database_name hexdigest test_id worker_id) ≤ 63)
        × (length (generate_collection_name hexdigest test_id worker_id) ≤ 100)
  unfolding generate_database_name generate_collection_name
  length-generate_names test_id worker_id = (
    length-name_of 63 (codes "test_") worker_id (name_hash hexdigest test_id) _,
    length-name_of 100 (codes "coll_") worker_id (name_hash hexdigest test_id) _,
  )

  length-name_hash :
      (test_id : Text) → length (hexdigest test_id) ≡ 64 → length (name_hash hexdigest test_id) ≡ 8
  length-name_hash test_id full = omega (arith, full, length-take 8 (hexdigest test_id))

  -- A name is not longer than the limit, 63 for databases and 100 for collections; and two tests of
  -- one worker whose identifiers have different hashes get different databases and different
  -- collections, since neither limit cuts the hash: the worker's name has 49 characters at most.
  pub generate_names-name_hash :
      (one other worker_id : Text)
      → length worker_id ≤ 49
      → length (hexdigest one) ≡ 64
      → length (hexdigest other) ≡ 64
      → name_hash hexdigest one ≢ name_hash hexdigest other
      → (length (generate_database_name hexdigest one worker_id) ≤ 63)
        × (length (generate_collection_name hexdigest one worker_id) ≤ 100)
        × (generate_database_name hexdigest one worker_id
            ≢ generate_database_name hexdigest other worker_id)
        × (generate_collection_name hexdigest one worker_id
            ≢ generate_collection_name hexdigest other worker_id)
  unfolding generate_database_name generate_collection_name
  generate_names-name_hash one other worker_id short full_one full_other differ =
      let eight = length-name_hash one full_one in
      let eight' = length-name_hash other full_other in
      (
        (length-generate_names one worker_id).0,
        (length-generate_names one worker_id).1,
        λ same. differ (
            name_of-injective 63 (codes "test_") worker_id _ _ _ _ (omega arith) eight eight' same),
        λ same. differ (
            name_of-injective 100 (codes "coll_") worker_id _ _ _ _ (omega arith) eight eight'
              same),
      )
