-- ===== src/RawBson.antt =====
-- Raw BSON documents with repeated keys (framework/bson_helpers.py). `bson.encode` of a document
-- with one field and the class `RawBSONDocument` are parameters.
pub mod Layout
use functional_tests.Base.{
  ℕ, ◌+◌, ◌-◌, ◌/◌, ◌%◌, String, Option, none, some, List, [], ◌∷◌, ◌++◌, take, drop, length, ltb,
  if◌then◌else◌,
}

abbrev pub Bytes : Type 0
Bytes = List ℕ

-- The four bytes of `n.to_bytes(4, "little")`.
unfoldable pub little_endian : ℕ → Bytes
little_endian n = n % 256 ∷ (n / 256) % 256 ∷ (n / 65536) % 256 ∷ (n / 16777216) % 256 ∷ []

-- `encoded[4:-1]`
unfoldable pub strip : Bytes → Bytes
strip encoded = take (length encoded - 5) (drop 4 encoded)

-- A document, the `InvalidBSON` of its class, or the `OverflowError` of `to_bytes`.
pub data Built (D : Type 0) : Type 0 where
  document : D → Built D
  invalid_bson overflow_error : Built D

abbrev pub built : {D : Type 0} → Option D → Built D
built none = invalid_bson
built (some d) = document d

module _ {A : Type 0} (encode : String → A → Bytes) where
  unfoldable pub elements : List (String × A) → Bytes
  unfolding strip
  elements [] = []
  elements ((name, value) ∷ fields) = strip (encode name value) ++ elements fields

  -- `raw_document` is the class `RawBSONDocument`, which gives `none` for its `InvalidBSON`.
  module _ {D : Type 0} (raw_document : Bytes → Option D) where
    unfoldable pub build_raw_bson_doc : List (String × A) → Built D
    unfolding elements little_endian
    build_raw_bson_doc fields =
        let doc_len = 4 + length (elements fields) + 1 in
        if ltb doc_len 4294967296
        then built (raw_document (little_endian doc_len ++ elements fields ++ 0 ∷ []))
        else overflow_error
