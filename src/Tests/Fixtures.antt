-- ===== src/Tests/Fixtures.antt =====
-- A server as the list of its namespaces, and the tests on it.
use functional_tests.Base.{
  ℕ, zero, suc, ◌≡◌, ◌≢◌, refl, ap, Bool, true, false, not, ◌&&◌, List, [], ◌∷◌, arith, any, select,
  ◌==◌, text_eq,
}
use functional_tests.Base.Text.{Text, codes}
use functional_tests.Names.{generate_database_name, name_hash}
use functional_tests.Session.Setup.{Drop, database, collection, dropped}
use functional_tests.Session.Fixtures.{
  Driver, call_of, Fixture, database_client, collection_fixture, register_db_cleanup, run_test,
}
use functional_tests.Session.Fixtures.Clean.{IsDriver, covers, run_test_clean}
use functional_tests.Session.Fixtures.Isolated.{run_test-generate_database_name}

abbrev Server : Type 0
Server = List (Text × Text)

abbrev without : Drop → Server → Server
without x s = select (λ (n : Text × Text). not (covers x (n.0) (n.1))) s

abbrev driver : Driver Server
driver = record {
  drop_database = λ name s. (without (database name) s, false);
  drop_collection = λ db coll s. (without (collection db coll) s, false);
}

abbrev has : Server → Text → Text → Bool
has s db coll = any (λ (n : Text × Text). n.0 == db && n.1 == coll) s

call_of-without : (x : Drop) (s : Server) → call_of driver x s ≡ (without x s, false)
call_of-without (database name) s = refl
call_of-without (collection db coll) s = refl

none_added :
    (x : Drop) (s : Server) (db coll : Text)
    → has s db coll ≡ false
    → has (without x s) db coll ≡ false
none_added x [] db coll h = refl
none_added x ((d, c) ∷ s) db coll h = ground (arith, none_added x s db coll)

others_kept :
    (x : Drop) (s : Server) (db coll : Text)
    → covers x db coll ≡ false
    → has (without x s) db coll ≡ has s db coll
others_kept x [] db coll h = refl
others_kept (database name) ((d, c) ∷ s) db coll h =
    ground (arith, others_kept (database name) s db coll)
others_kept (collection b e) ((d, c) ∷ s) db coll h =
    ground (arith, others_kept (collection b e) s db coll)

all_removed :
    (x : Drop) (s : Server) (db coll : Text)
    → covers x db coll ≡ true
    → has (without x s) db coll ≡ false
all_removed x [] db coll h = refl
all_removed (database name) ((d, c) ∷ s) db coll h =
    ground (arith, all_removed (database name) s db coll)
all_removed (collection b e) ((d, c) ∷ s) db coll h =
    ground (arith, all_removed (collection b e) s db coll)

driver-IsDriver : IsDriver driver has
driver-IsDriver = record {
  adds_none = λ x s db coll h. rw (call_of-without x s) (none_added x s db coll h);
  keeps = λ x s db coll h. rw (call_of-without x s) (others_kept x s db coll h);
  removes = λ x s db coll h _. rw (call_of-without x s) (all_removed x s db coll h);
}

-- A digest of 64 characters that all are the first of the text.
abbrev repeated : ℕ → ℕ → Text
repeated zero c = []
repeated (suc n) c = c ∷ repeated n c

abbrev hexdigest : Text → Text
hexdigest [] = repeated 64 0
hexdigest (c ∷ _) = repeated 64 c

abbrev first : Text → ℕ
first [] = 0
first (c ∷ _) = c

abbrev one : Text
one = codes "a.py::t"

abbrev two : Text
two = codes "b.py::u"

abbrev worker : Text
worker = codes "gw0"

-- The body fills two collections of its database and one that it registers.
abbrev body : Server → Server × List Text
body s = (
  (codes "test_gw0_aaaaaaaa_t", codes "x")
      ∷ (codes "test_gw0_aaaaaaaa_t", codes "y")
      ∷ (codes "extra", codes "z")
      ∷ s,
  codes "extra.z" ∷ [],
)

-- The other test has a collection in its database.
abbrev before : Server
before = (codes "test_gw0_bbbbbbbb_u", codes "x") ∷ []

abbrev fixtures : List Fixture
fixtures = database_client ∷ register_db_cleanup ∷ collection_fixture ∷ []

after_test : run_test hexdigest driver one worker fixtures body before ≡ before
unfolding run_test text_eq
after_test = refl

run_test_clean_example :
    has
      (run_test hexdigest driver one worker fixtures body before)
      (generate_database_name hexdigest one worker)
      (codes "y")
    ≡ false
run_test_clean_example =
    run_test_clean driver-IsDriver hexdigest one worker (λ s. refl) fixtures body before (codes "y")
      refl

hashes_differ : name_hash hexdigest one ≢ name_hash hexdigest two
hashes_differ same = omega (arith, ap first same)

not_touched :
    has ((body before).0) (generate_database_name hexdigest two worker) (codes "x")
    ≡ has before (generate_database_name hexdigest two worker) (codes "x")
unfolding generate_database_name text_eq
not_touched = refl

not_registered :
    any
      (λ x. covers x (generate_database_name hexdigest two worker) (codes "x"))
      (dropped ((body before).1))
    ≡ false
unfolding generate_database_name dropped text_eq
not_registered = refl

run_test-generate_database_name_example :
    has
      (run_test hexdigest driver one worker fixtures body before)
      (generate_database_name hexdigest two worker)
      (codes "x")
    ≡ has before (generate_database_name hexdigest two worker) (codes "x")
run_test-generate_database_name_example =
    run_test-generate_database_name driver-IsDriver hexdigest one worker two fixtures body before
      (codes "x") (omega arith) refl refl hashes_differ not_touched not_registered
