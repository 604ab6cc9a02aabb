-- ===== src/Targets.antt =====
-- The kinds of collection that a test can ask for (framework/target_collection.py): the calls that
-- each makes of the database, and the collection that it yields.
pub mod Names
pub mod Sibling
use functional_tests.Base.{
  ℕ, zero, suc, ◌+◌, String, ◌<>◌, Bool, true, false, Option, none, some, List, [], ◌∷◌, ◌++◌,
  if◌then◌else◌,
}
use functional_tests.Bson.{Value, atom, list, dict, Items, nil, cons, Fields, end, field}

-- How literals of the source become Python objects, and `str` of an integer.
pub record Literals (A : Type 0) : Type 0 where
  pub bool : Bool → A
  pub int : ℕ → A
  pub str : String → A
  pub show : ℕ → String

-- A call of the driver. The first two take the new collection's name, `viewOn` if it is given, and
-- the other options.
pub data Call (A : Type 0) : Type 0 where
  command_create create_collection : String → Option String → Fields A → Call A
  gridfs_put : String → Call A

-- `db[name]`, or `client[db_name][name]`.
pub data Ref : Type 0 where
  here : String → Ref
  elsewhere : String → String → Ref

-- The subclasses of `TargetCollection`, and the class itself, with their fields.
pub data Target (A : Type 0) : Type 0 where
  target_collection system_views_collection orphaned_view_collection : Target A
  validated_collection clustered_collection change_stream_images_collection : Target A
  storage_engine_collection gridfs_collection : Target A
  view_collection : Fields A → String → Target A
  custom_collection view_on_custom_collection collection_with_view : Fields A → Target A
  capped_collection : ℕ → Option ℕ → Target A
  -- The suffix is a function of the database and the collection, constant for a static string.
  named_collection : (String → String → String) → Target A
  target_database existing_database existing_collection collated_collection : String → Target A
  view_chain_collection extra_collections : ℕ → Target A
  timeseries_ttl_collection timeseries_custom_bucket_collection : ℕ → Target A
  -- `timeseries_options` and `create_options`
  timeseries_collection system_buckets_collection : Value A → Fields A → Target A

module _ {A : Type 0} (L : Literals A) where
  abbrev text : String → Value A
  text s = atom (L.str s)

  abbrev number : ℕ → Value A
  number n = atom (L.int n)

  abbrev flag : Value A
  flag = atom (L.bool true)

  abbrev pub one : String → Value A → Fields A
  one k v = field k v end

  abbrev pub no_pipeline : Fields A
  no_pipeline = one "pipeline" (list nil)

  -- `**options` behind other keywords
  abbrev with_options : Fields A → Fields A → Fields A
  with_options end options = options
  with_options (field k v fs) options = field k v (with_options fs options)

  abbrev max_option : Option ℕ → Fields A
  max_option none = end
  max_option (some n) = one "max" (number n)

  abbrev schema : Value A
  schema = dict (
      one "$jsonSchema"
        (dict (field "bsonType" (text "object") (one "required" (list (cons (text "x") nil))))))

  abbrev wired_tiger : Value A
  wired_tiger = dict (one "wiredTiger" (dict (one "configString" (text ""))))

  -- The `i`-th view of a chain.
  abbrev pub chain_name : String → ℕ → String
  chain_name coll i = coll <> ("_chain_" <> L.show i)

  -- The views from number `i` on, as many as the first argument says, and the last source.
  unfoldable pub chain : ℕ → String → String → ℕ → List (Call A) × Ref
  chain zero coll source i = ([], here source)
  chain (suc left) coll source i =
      let name = chain_name coll i in
      let (calls, last) = chain left coll name (i + 1) in
      (command_create name (some source) no_pipeline ∷ calls, last)

  -- `count` more collections, from number `i` on.
  unfoldable pub extras : ℕ → String → ℕ → List (Call A)
  extras zero coll i = []
  extras (suc left) coll i =
      create_collection (coll <> ("_extra_" <> L.show i)) none end ∷ extras left coll (i + 1)

  abbrev make : String → Fields A → List (Call A) × Ref
  make name options = (create_collection name none options ∷ [], here name)

  -- `resolve(db, collection)`, from the names of the two.
  unfoldable pub resolve : Target A → String → String → List (Call A) × Ref
  unfolding chain extras
  resolve target_collection db coll = ([], here coll)
  resolve (view_collection options suffix) db coll =
      let name = coll <> suffix in (command_create name (some coll) options ∷ [], here name)
  resolve system_views_collection db coll =
      (command_create (coll <> "_view") (some coll) no_pipeline ∷ [], here "system.views")
  resolve (custom_collection options) db coll =
      let name = coll <> "_custom" in (command_create name none options ∷ [], here name)
  resolve (view_on_custom_collection options) db coll =
      let source = coll <> "_custom_src" in
      let name = coll <> "_custom_view" in
      (
        command_create source none options ∷ command_create name (some source) no_pipeline ∷ [],
        here name,
      )
  resolve (capped_collection size most) db coll =
      make (coll <> "_capped") (field "capped" flag (field "size" (number size) (max_option most)))
  resolve (named_collection suffix) db coll = make (coll <> suffix db coll) end
  resolve (target_database suffix) db coll = ([], elsewhere (db <> ("_" <> suffix)) "tmp")
  resolve (existing_database name) db coll = ([], elsewhere name "tmp")
  resolve (view_chain_collection depth) db coll = chain depth coll coll 1
  resolve (existing_collection name) db coll = ([], here name)
  resolve (timeseries_collection timeseries options) db coll =
      make (coll <> "_ts") (field "timeseries" timeseries options)
  resolve (system_buckets_collection timeseries options) db coll =
      let name = coll <> "_ts" in
      (
        create_collection name none (field "timeseries" timeseries options) ∷ [],
        here ("system.buckets." <> name),
      )
  resolve orphaned_view_collection db coll =
      let name = coll <> "_orphan" in
      (command_create name (some "nonexistent_source") end ∷ [], here name)
  resolve validated_collection db coll = make (coll <> "_validated") (
      field "validator" schema
        (field "validationLevel" (text "strict") (one "validationAction" (text "error"))))
  resolve (collated_collection locale) db coll =
      make (coll <> "_collated") (one "collation" (dict (one "locale" (text locale))))
  resolve clustered_collection db coll =
      make (coll <> "_clustered") (
        one "clusteredIndex" (dict (field "key" (dict (one "_id" (number 1))) (one "unique" flag))))
  resolve (timeseries_ttl_collection seconds) db coll = make (coll <> "_ts_ttl") (
      field "timeseries" (dict (one "timeField" (text "ts")))
        (one "expireAfterSeconds" (number seconds)))
  resolve (timeseries_custom_bucket_collection seconds) db coll = make (coll <> "_ts_bucket") (
      one "timeseries" (
        dict (
          field "timeField" (text "ts") (
            field "bucketRoundingSeconds" (number seconds)
              (one "bucketMaxSpanSeconds" (number seconds))))))
  resolve change_stream_images_collection db coll =
      make (coll <> "_cspi") (one "changeStreamPreAndPostImages" (dict (one "enabled" flag)))
  resolve storage_engine_collection db coll = make (coll <> "_storage") (
      field "storageEngine" wired_tiger
        (one "indexOptionDefaults" (dict (one "storageEngine" wired_tiger))))
  resolve gridfs_collection db coll =
      let prefix = coll <> "_gfs" in (gridfs_put prefix ∷ [], here (prefix <> ".files"))
  resolve (extra_collections count) db coll = (extras count coll 0, here coll)
  resolve (collection_with_view options) db coll =
      let source = coll <> "_source" in
      (
        command_create source none end
            ∷ command_create (coll <> "_view") (some source) (with_options no_pipeline options)
            ∷ [],
        here source,
      )

  -- `writable(source, resolved)`, from the name of the source.
  unfoldable pub writable : Target A → String → Ref → Ref
  writable (view_collection _ _) source resolved = here source
  writable system_views_collection source resolved = here source
  writable (view_on_custom_collection _) source resolved = here (source <> "_custom_src")
  writable (view_chain_collection _) source resolved = here source
  writable orphaned_view_collection source resolved = here source
  writable _ source resolved = resolved
