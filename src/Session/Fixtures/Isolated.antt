-- ===== src/Session/Fixtures/Isolated.antt =====
-- The teardown of one test leaves the databases of the others.
use functional_tests.Base.{
  ◌≡◌, ◌≢◌, ◌≤◌, refl, ◌∙◌, Bool, false, List, [], ◌∷◌, any, text_eq, arith, length,
}
use functional_tests.Base.Text.{Text}
use functional_tests.Names.{name_hash, generate_database_name}
use functional_tests.Names.Unique.{generate_names-name_hash}
use functional_tests.Session.Setup.{dropped}
use functional_tests.Session.Fixtures.{
  Driver, Fixture, database_client, collection_fixture, register_db_cleanup, finalizer, teardown,
  run_test,
}
use functional_tests.Session.Fixtures.Clean.{IsDriver, covers, run_drops-kept}

module _ {S : Type 0} {driver : Driver S} {has : S → Text → Text → Bool} (ok : IsDriver driver has)
    (hexdigest : Text → Text) (test_id worker : Text) where
  abbrev IsOther : Text → Type 0
  IsOther db = generate_database_name hexdigest test_id worker ≢ db

  finalizer-apart :
      (names : List Text) (db coll : Text)
      → IsOther db
      → any (λ x. covers x db coll) (dropped names) ≡ false
      → (f : Fixture)
      → any (λ x. covers x db coll) (finalizer hexdigest test_id worker names f) ≡ false
  unfolding finalizer
  finalizer-apart names db coll other unnamed database_client = ground (arith, other)
  finalizer-apart names db coll other unnamed collection_fixture = ground (arith, other)
  finalizer-apart names db coll other unnamed register_db_cleanup = unnamed

  teardown-kept :
      (names : List Text) (fixtures : List Fixture) (s : S) (db coll : Text)
      → IsOther db
      → any (λ x. covers x db coll) (dropped names) ≡ false
      → has (teardown hexdigest driver test_id worker names fixtures s) db coll ≡ has s db coll
  unfolding teardown
  teardown-kept names [] s db coll other unnamed = refl
  teardown-kept names (f ∷ fs) s db coll other unnamed =
      run_drops-kept ok (finalizer hexdigest test_id worker names f) _ db coll
        (finalizer-apart names db coll other unnamed f)
      ∙ teardown-kept names fs s db coll other unnamed

  -- With a driver that keeps its contract and digests of 64 characters, where the hashes of two tests
  -- of one worker differ, the run of the one leaves each collection of the other's database, if its
  -- body does and registers it not for removal: the worker's name has 49 characters at most.
  pub run_test-generate_database_name :
      (other : Text) (fixtures : List Fixture) (body : S → S × List Text) (s : S) (coll : Text)
      → length worker ≤ 49
      → length (hexdigest test_id) ≡ 64
      → length (hexdigest other) ≡ 64
      → name_hash hexdigest test_id ≢ name_hash hexdigest other
      → has ((body s).0) (generate_database_name hexdigest other worker) coll
        ≡ has s (generate_database_name hexdigest other worker) coll
      → any
          (λ x. covers x (generate_database_name hexdigest other worker) coll)
          (dropped ((body s).1))
        ≡ false
      → has
          (run_test hexdigest driver test_id worker fixtures body s)
          (generate_database_name hexdigest other worker)
          coll
        ≡ has s (generate_database_name hexdigest other worker) coll
  unfolding run_test
  run_test-generate_database_name other fixtures body s coll short full full' differ same unnamed =
      let (_, _, apart, _) =
        generate_names-name_hash hexdigest test_id other worker short full full' differ in
      teardown-kept ((body s).1) fixtures ((body s).0) _ coll apart unnamed ∙ same
