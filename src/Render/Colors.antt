-- ===== src/Render/Colors.antt =====
-- The status of a feature and its tests (`_feature_status` of render_markdown.py).
use functional_tests.Base.{
  ◌+◌, ◌<◌, ◌≡◌, refl, ◌↔◌, Bool, true, false, ◌||◌, List, [], ◌∷◌, arith, nat_eq, any, count,
}
use functional_tests.Base.Dict.{Dict}
use functional_tests.Base.Text.{Text}
use functional_tests.Analyzer.Feature.{
  Key, failed, error, passed, deselected, same_key, Named, group_by_feature,
}
use functional_tests.Analyzer.Feature.Counts.{
  count_at, counts_test, counts_deselected, count_at-group_by_feature,
}
use functional_tests.Render.{red, green, feature_status}

-- The tests at or below a path whose outcome is counted under one of two keys.
abbrev pub some_test : Key → Key → List Text → List Named → Bool
some_test k j path tests = any (λ t. counts_test k path t || counts_test j path t) tests

some_test-count :
    (k j : Key) (path : List Text) (tests : List Named)
    → (some_test k j path tests ≡ true)
      ↔ (0 < count (counts_test k path) tests + count (counts_test j path) tests)
some_test-count k j path [] = ground arith
some_test-count k j path ((name, outcome) ∷ tests) = ground (arith, some_test-count k j path tests)

none_deselected :
    (k : Key) (path : List Text) (dropped : Dict Text (Dict Text Bool))
    → same_key k deselected ≡ false
    → count (counts_deselected k path) dropped ≡ 0
none_deselected k path [] h = refl
none_deselected k path ((nodeid, unmet) ∷ dropped) h =
    ground (arith, none_deselected k path dropped h)

not_deselected :
    (same_key failed deselected ≡ false)
    × (same_key error deselected ≡ false)
    × (same_key passed deselected ≡ false)
unfolding same_key
not_deselected = (refl, refl, refl)

module _ (path : List Text) (tests : List Named) (dropped : Dict Text (Dict Text Bool)) where
  counted :
      (k : Key)
      → same_key k deselected ≡ false
      → count_at k path (group_by_feature tests dropped) ≡ count (counts_test k path) tests
  counted k h =
      omega
        (arith, count_at-group_by_feature k path tests dropped, none_deselected k path dropped h)

  -- The status of the node at a path is red exactly if some test at or below the path failed or
  -- crashed, and green exactly if none did and some test there passed; deselected tests do not
  -- matter.
  feature_status_lem :
      let status = feature_status (λ k. count_at k path (group_by_feature tests dropped)) in
      ((status ≡ red) ↔ (some_test failed error path tests ≡ true))
      × ((status ≡ green) ↔ (
          (some_test failed error path tests ≡ false)
          × (some_test passed passed path tests ≡ true)))
  unfolding feature_status
  feature_status_lem =
      rw
        (
          counted failed not_deselected.0,
          counted error not_deselected.1,
          counted passed not_deselected.2,
        )
        (ground (
          arith,
          some_test-count failed error path tests,
          some_test-count passed passed path tests,
        ))
