-- ===== src/Session/Setup.antt =====
-- The targets of a session, and the marks of an item for its engine: `pytest_configure`,
-- `pytest_runtest_setup`, `pytest_json_runtest_metadata` and `register_db_cleanup` of conftest.py.
pub mod Marks
use functional_tests.Base.{
  ℕ, String, Bool, true, false, not, ◌&&◌, ◌||◌, Option, none, some, List, [], ◌∷◌, ◌++◌, map,
  contains, ◌==◌, string_eq, nat_eq, if◌then◌else◌,
}
use functional_tests.Base.Text.{Text, codes}
use functional_tests.Preconditions.{Profile}
use functional_tests.Registry.{Target}

-- An empty connection string is none, as the code tests its truth.
pub record Options : Type 0 where
  pub connection_string : Text
  pub engine_name : String
  pub collect_only : Bool
  pub is_worker : Bool

unfoldable pub known_engines : List (Profile × List String) → List String
known_engines [] = []
known_engines (((engine, _), _) ∷ table) = engine ∷ known_engines table

-- `none` is the `UsageError`.
unfoldable pub test_targets :
    List (Profile × List String) → List Target → Options → Option (List Target)
unfolding known_engines
test_targets table live o = elim (o.connection_string) [
  | [] ↦ some live
  | c ∷ s ↦
      if contains (known_engines table) o.engine_name
      then some
          (record { name = o.engine_name; engine = o.engine_name; connection_string = c ∷ s } ∷ [])
      else none
]

-- The connection strings that `ensure_initiated` is called on.
unfoldable pub initiated : Options → List Target → List Text
initiated o targets =
    if not o.is_worker && not o.collect_only
    then map (λ (t : Target). t.connection_string) targets
    else []

-- An `engine_xfail` or `engine_xcrash` marker, and the `xfail` marker that is added.
pub record EngineMark : Type 0 where
  pub engine : Option String
  pub reason : Option String
  pub raises : Option String

pub record Xfail : Type 0 where
  pub reason : String
  pub raises : String
  pub strict : Bool

abbrev pub or_given : Option String → String → String
or_given none s = s
or_given (some t) s = t

-- `engine == marker.kwargs.get("engine")`: an item without a target matches a mark without an engine.
unfoldable pub same_engine : Option String → Option String → Bool
same_engine none none = true
same_engine (some a) (some b) = a == b
same_engine _ _ = false

unfoldable pub added_xfails : Option String → List EngineMark → List Xfail
unfolding same_engine
added_xfails engine [] = []
added_xfails engine (m ∷ ms) =
    let rest = added_xfails engine ms in
    if same_engine engine m.engine
    then record {
      reason = or_given m.reason "";
      raises = or_given m.raises "AssertionError";
      strict = true;
    }
      ∷ rest
    else rest

-- The reason of `pytest.skip`, which raises and so ends the loop.
unfoldable pub crash_skip : Option String → Bool → List EngineMark → Option String
unfolding same_engine
crash_skip engine run_crash_tests [] = none
crash_skip engine run_crash_tests (m ∷ ms) =
    let rest = crash_skip engine run_crash_tests ms in
    if same_engine engine m.engine && not run_crash_tests
    then some (or_given m.reason "crashes the server")
    else rest

-- `pytest_runtest_setup`: the marks that are added, and the reason of a skip.
abbrev pub runtest_setup :
    Option String → Bool → List EngineMark → List EngineMark → List Xfail × Option String
runtest_setup engine run_crash_tests xfails xcrashes =
    (added_xfails engine xfails, crash_skip engine run_crash_tests xcrashes)

-- The recorded reason; `closest` is what `get_closest_marker("xfail")` gives, with its reason.
unfoldable pub runtest_metadata : String → Option (Option String) → Option String
runtest_metadata when none = none
runtest_metadata when (some none) = none
runtest_metadata when (some (some reason)) =
    if when == "setup" && not (reason == "") then some reason else none

-- What is dropped after the test.
pub data Drop : Type 0 where
  database : Text → Drop
  collection : Text → Text → Drop

-- The parts of `name.split(".", 1)`, or `none` without a dot.
abbrev pub one_more : ℕ → Option (Text × Text) → Option (Text × Text)
one_more c none = none
one_more c (some (db, coll)) = some (c ∷ db, coll)

unfoldable pub split_dot : Text → Option (Text × Text)
split_dot [] = none
split_dot (c ∷ s) = let rest = split_dot s in if c == b'.' then some ([], s) else one_more c rest

abbrev pub drop_of : Text → Option (Text × Text) → Drop
drop_of name none = database name
drop_of name (some (db, coll)) = collection db coll

unfoldable pub dropped : List Text → List Drop
unfolding split_dot
dropped [] = []
dropped (name ∷ names) = drop_of name (split_dot name) ∷ dropped names
