-- ===== src/Session/Fixtures.antt =====
-- The fixtures of a test and their removal: `worker_id`, `database_client`, `collection` and
-- `register_db_cleanup` of conftest.py, with the cleanups of framework/fixtures.py, and the instances
-- of a test, `pytest_generate_tests`. The driver's calls are parameters.
pub mod Clean
pub mod Isolated
use functional_tests.Base.{
  ℕ, String, Bool, true, false, Option, none, some, List, [], ◌∷◌, map, contains, string_eq,
  if◌then◌else◌,
}
use functional_tests.Base.Text.{Text, codes}
use functional_tests.Names.{generate_database_name, generate_collection_name}
use functional_tests.Registry.{Target}
use functional_tests.Session.Setup.{Drop, database, collection, dropped}

-- The targets with their ids that a test is parametrized over, or `none` where it is left as it is.
unfoldable pub generate_tests : List String → List Target → Option (List (Target × String))
unfolding string_eq
generate_tests fixturenames targets =
    if contains fixturenames "engine_client"
    then some (map (λ (t : Target). (t, t.name)) targets)
    else none

-- The identifier of the worker, which the configuration has under xdist alone.
abbrev pub worker_id : Option Text → Text
worker_id none = codes "master"
worker_id (some workerid) = workerid

-- What a test reads of its target, with `none` for the failed assertion of a test without one.
abbrev pub engine_name : Option Target → Option String
engine_name none = none
engine_name (some t) = some t.engine

abbrev pub connection_string : Option Target → Option Text
connection_string none = none
connection_string (some t) = some t.connection_string

-- The driver's calls on a server of state `S`: the state after a call, and whether it raises.
pub record Driver (S : Type 0) : Type 0 where
  pub drop_database : Text → S → S × Bool
  pub drop_collection : Text → Text → S → S × Bool

abbrev pub call_of : {S : Type 0} → Driver S → Drop → S → S × Bool
call_of driver (database name) = driver.drop_database name
call_of driver (collection db coll) = driver.drop_collection db coll

-- Best effort: an exception is passed over.
abbrev pub cleanup_database : {S : Type 0} → Driver S → Text → S → S
cleanup_database driver name s = (driver.drop_database name s).0

abbrev pub cleanup_collection : {S : Type 0} → Driver S → Text → Text → S → S
cleanup_collection driver db coll s = (driver.drop_collection db coll s).0

abbrev pub cleanup : {S : Type 0} → Driver S → Drop → S → S
cleanup driver (database name) s = cleanup_database driver name s
cleanup driver (collection db coll) s = cleanup_collection driver db coll s

unfoldable pub run_drops : {S : Type 0} → Driver S → List Drop → S → S
run_drops driver [] s = s
run_drops driver (x ∷ xs) s = run_drops driver xs (cleanup driver x s)

pub data Fixture : Type 0 where
  database_client : Fixture
  collection_fixture : Fixture
  register_db_cleanup : Fixture

module _ (hexdigest : Text → Text) where
  -- What follows the `yield` of a fixture, for a test that has registered `names`.
  unfoldable pub finalizer : Text → Text → List Text → Fixture → List Drop
  unfolding generate_database_name generate_collection_name dropped
  finalizer test_id worker names database_client =
      database (generate_database_name hexdigest test_id worker) ∷ []
  finalizer test_id worker names collection_fixture =
      collection (generate_database_name hexdigest test_id worker)
        (generate_collection_name hexdigest test_id worker)
      ∷ []
  finalizer test_id worker names register_db_cleanup = dropped names

module _ {S : Type 0} (hexdigest : Text → Text) (driver : Driver S) where
  -- The fixtures in the order of their set-up; the last one is finalized first.
  unfoldable pub teardown : Text → Text → List Text → List Fixture → S → S
  unfolding run_drops finalizer
  teardown test_id worker names [] s = s
  teardown test_id worker names (f ∷ fs) s =
      run_drops driver (finalizer hexdigest test_id worker names f)
        (teardown test_id worker names fs s)

  -- A test: its body, passed or not, gives the state after it and the names it has registered.
  unfoldable pub run_test : Text → Text → List Fixture → (S → S × List Text) → S → S
  unfolding teardown
  run_test test_id worker fixtures body s =
      let (after, names) = body s in teardown test_id worker names fixtures after
