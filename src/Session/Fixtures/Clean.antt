-- ===== src/Session/Fixtures/Clean.antt =====
-- What the drops of a teardown leave.
use functional_tests.Base.{
  ◌≡◌, refl, ap, ◌∙◌, Bool, true, false, ◌&&◌, List, [], ◌∷◌, any, ◌==◌, text_eq, arith,
}
use functional_tests.Base.Text.{Text}
use functional_tests.Names.{generate_database_name}
use functional_tests.Session.Setup.{Drop, database, collection}
use functional_tests.Session.Fixtures.{
  Driver, call_of, cleanup, run_drops, Fixture, database_client, collection_fixture,
  register_db_cleanup, finalizer, teardown, run_test,
}

-- The namespaces, of a database and a collection, that a drop is to remove.
abbrev pub covers : Drop → Text → Text → Bool
covers (database name) db coll = db == name
covers (collection name c) db coll = db == name && coll == c

abbrev pub is_database_client : Fixture → Bool
is_database_client database_client = true
is_database_client _ = false

-- The driver's contract, for the namespaces that a state has: a call adds none and removes those
-- alone that the drop covers, and all of these where it does not raise.
pub record IsDriver {S : Type 0} (driver : Driver S) (has : S → Text → Text → Bool) : Type 0 where
  pub adds_none :
      (x : Drop) (s : S) (db coll : Text)
      → has s db coll ≡ false
      → has ((call_of driver x s).0) db coll ≡ false
  pub keeps :
      (x : Drop) (s : S) (db coll : Text)
      → covers x db coll ≡ false
      → has ((call_of driver x s).0) db coll ≡ has s db coll
  pub removes :
      (x : Drop) (s : S) (db coll : Text)
      → covers x db coll ≡ true
      → (call_of driver x s).1 ≡ false
      → has ((call_of driver x s).0) db coll ≡ false

module _ {S : Type 0} {driver : Driver S} {has : S → Text → Text → Bool}
    (ok : IsDriver driver has) where
  cleanup-call_of : (x : Drop) (s : S) → cleanup driver x s ≡ (call_of driver x s).0
  cleanup-call_of (database name) s = refl
  cleanup-call_of (collection db coll) s = refl

  -- A namespace that is gone stays so.
  run_drops-gone :
      (xs : List Drop) (s : S) (db coll : Text)
      → has s db coll ≡ false
      → has (run_drops driver xs s) db coll ≡ false
  unfolding run_drops
  run_drops-gone [] s db coll gone = gone
  run_drops-gone (x ∷ xs) s db coll gone =
      run_drops-gone xs (cleanup driver x s) db coll
        (ap (λ t. has t db coll) (cleanup-call_of x s) ∙ ok.adds_none x s db coll gone)

  -- A namespace that no drop covers stays as it is.
  pub run_drops-kept :
      (xs : List Drop) (s : S) (db coll : Text)
      → any (λ x. covers x db coll) xs ≡ false
      → has (run_drops driver xs s) db coll ≡ has s db coll
  unfolding run_drops
  run_drops-kept [] s db coll none_covers = refl
  run_drops-kept (x ∷ xs) s db coll none_covers =
      run_drops-kept xs (cleanup driver x s) db coll (ground arith)
      ∙ ap (λ t. has t db coll) (cleanup-call_of x s)
      ∙ ok.keeps x s db coll (ground arith)

  module _ (hexdigest : Text → Text) (test_id worker : Text) where
    teardown-gone :
        (names : List Text) (fixtures : List Fixture) (s : S) (db coll : Text)
        → has s db coll ≡ false
        → has (teardown hexdigest driver test_id worker names fixtures s) db coll ≡ false
    unfolding teardown
    teardown-gone names [] s db coll gone = gone
    teardown-gone names (f ∷ fs) s db coll gone =
        run_drops-gone (finalizer hexdigest test_id worker names f) _ db coll
          (teardown-gone names fs s db coll gone)

    -- The call on the test's database does not raise.
    abbrev pub Works : Type 0
    Works =
        (s : S)
        → (driver.drop_database (generate_database_name hexdigest test_id worker) s).1 ≡ false

    finalizer-database :
        Works
        → (names : List Text) (s : S) (coll : Text)
        → has
            (run_drops driver (finalizer hexdigest test_id worker names database_client) s)
            (generate_database_name hexdigest test_id worker)
            coll
          ≡ false
    unfolding finalizer run_drops
    finalizer-database works names s coll =
        ok.removes (database (generate_database_name hexdigest test_id worker)) s _ coll
          (ground arith) (works s)

    teardown-clean :
        Works
        → (names : List Text) (fixtures : List Fixture) (s : S) (coll : Text)
        → any is_database_client fixtures ≡ true
        → has
            (teardown hexdigest driver test_id worker names fixtures s)
            (generate_database_name hexdigest test_id worker)
            coll
          ≡ false
    unfolding teardown
    teardown-clean works names [] s coll used = absurd (ground (arith, used))
    teardown-clean works names (database_client ∷ fs) s coll used =
        finalizer-database works names _ coll
    teardown-clean works names (collection_fixture ∷ fs) s coll used =
        run_drops-gone (finalizer hexdigest test_id worker names collection_fixture) _ _ coll
          (teardown-clean works names fs s coll used)
    teardown-clean works names (register_db_cleanup ∷ fs) s coll used =
        run_drops-gone (finalizer hexdigest test_id worker names register_db_cleanup) _ _ coll
          (teardown-clean works names fs s coll used)

    -- With a driver that keeps its contract, after a test that uses the fixture of a database, whatever
    -- its body did and whichever other drops raised, no collection of its database is left, if the drop
    -- of the database does not raise.
    pub run_test_clean :
        Works
        → (fixtures : List Fixture) (body : S → S × List Text) (s : S) (coll : Text)
        → any is_database_client fixtures ≡ true
        → has
            (run_test hexdigest driver test_id worker fixtures body s)
            (generate_database_name hexdigest test_id worker)
            coll
          ≡ false
    unfolding run_test
    run_test_clean works fixtures body s coll used =
        teardown-clean works ((body s).1) fixtures ((body s).0) coll used
