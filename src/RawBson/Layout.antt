-- ===== src/RawBson/Layout.antt =====
-- The layout of raw BSON documents (framework/bson_helpers.py).
use mathlib.Core.List.{append_assoc}
use functional_tests.Base.{
  ℕ, ◌+◌, ◌-◌, ◌*◌, ◌<◌, ◌≡◌, refl, sym, ap, ◌∙◌, String, Option, some, List, [], ◌∷◌, ◌++◌, take,
  length, length-append, arith,
}
use functional_tests.RawBson.{Bytes, little_endian, strip, elements, document, build_raw_bson_doc}

-- The number that the first four bytes of a document give.
unfoldable pub declared_length : Bytes → ℕ
declared_length (a ∷ b ∷ c ∷ d ∷ _) = a + b * 256 + c * 65536 + d * 16777216
declared_length _ = 0

declared_length_lem :
    (n : ℕ) (rest : Bytes) → n < 4294967296 → declared_length (little_endian n ++ rest) ≡ n
unfolding declared_length little_endian
declared_length_lem n rest small = omega arith

take-length_append : (xs ys : Bytes) → take (length xs) (xs ++ ys) ≡ xs
take-length_append [] ys = refl
take-length_append (x ∷ xs) ys = ap (λ zs. x ∷ zs) (take-length_append xs ys)

strip_framed : (xs : Bytes) → strip (little_endian (length xs + 5) ++ xs ++ 0 ∷ []) ≡ xs
unfolding strip little_endian
strip_framed xs =
    ap (λ n. take n (xs ++ 0 ∷ [])) (stripped_length xs) ∙ take-length_append xs (0 ∷ [])
  where
    stripped_length :
        (xs : Bytes) → length (little_endian (length xs + 5) ++ xs ++ 0 ∷ []) - 5 ≡ length xs
    stripped_length xs = omega (arith, length-append xs (0 ∷ []))

abbrev pub framed_by : ℕ → Bytes → Bytes
framed_by n xs = little_endian n ++ xs ++ 0 ∷ []

pub length-framed_by : (n : ℕ) (xs : Bytes) → length (framed_by n xs) ≡ 4 + length xs + 1
unfolding little_endian
length-framed_by n xs = omega (arith, length-append xs (0 ∷ []))

pub declared_length-framed_by :
    (n : ℕ) (xs : Bytes) → n < 4294967296 → declared_length (framed_by n xs) ≡ n
declared_length-framed_by n xs small =
    ap declared_length (append_assoc (little_endian n) xs (0 ∷ []))
    ∙ declared_length_lem n (xs ++ 0 ∷ []) small

module _ {A : Type 0} (encode element : String → A → Bytes) where
  -- The elements one after the other.
  unfoldable pub concatenated : List (String × A) → Bytes
  concatenated [] = []
  concatenated ((name, value) ∷ fields) = element name value ++ concatenated fields

  elements-concatenated :
      (framed : (name : String) (value : A)
        → encode name value ≡ framed_by (length (element name value) + 5) (element name value))
      (fields : List (String × A))
      → elements encode fields ≡ concatenated fields
  unfolding elements concatenated
  elements-concatenated framed [] = refl
  elements-concatenated framed ((name, value) ∷ fields) =
      ap (λ x. x ++ elements encode fields)
        (ap strip (framed name value) ∙ strip_framed (element name value))
      ∙ ap (λ ys. element name value ++ ys) (elements-concatenated framed fields)

  -- If `bson.encode` frames a document's one element by the length and a zero byte, and
  -- `RawBSONDocument` takes bytes that are framed so and fewer than 2 ^ 31, the reach of their signed
  -- length, and keeps them as its `raw`, then fields whose elements stay below that give a document.
  -- It has all of them in their order, repeated keys too, between four bytes that give its whole
  -- length and a zero byte.
  pub build_raw_bson_doc_lem :
      {D : Type 0} (raw_document : Bytes → Option D) (raw : D → Bytes)
      → ((xs : Bytes)
          → length xs + 5 < 2147483648
          → (d : D) × (raw_document (framed_by (length xs + 5) xs) ≡ some d)
            × (raw d ≡ framed_by (length xs + 5) xs))
      → ((name : String) (value : A)
          → encode name value ≡ framed_by (length (element name value) + 5) (element name value))
      → (fields : List (String × A)) → length (concatenated fields) + 5 < 2147483648
      → (d : D) × (build_raw_bson_doc encode raw_document fields ≡ document d)
        × (raw d ≡ little_endian (length (raw d)) ++ concatenated fields ++ 0 ∷ [])
        × (declared_length (raw d) ≡ length (raw d))
  unfolding build_raw_bson_doc
  build_raw_bson_doc_lem raw_document raw takes framed fields fits =
      let xs = concatenated fields in
      let (d, taken, kept) = takes xs fits in
      let full : length (raw d) ≡ length xs + 5 =
        ap length kept ∙ omega (arith, length-framed_by (length xs + 5) xs) in
      let n_eq : 4 + length xs + 1 ≡ length xs + 5 = omega arith in
      (
        d,
        rw (elements-concatenated framed fields, n_eq, taken) (ground (arith, fits)),
        kept ∙ ap (λ k. framed_by k xs) (sym full),
        ap declared_length kept
            ∙ declared_length-framed_by (length xs + 5) xs (omega arith)
            ∙ sym full,
      )
