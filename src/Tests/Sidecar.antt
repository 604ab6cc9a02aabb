-- ===== src/Tests/Sidecar.antt =====
-- Processes that write the sidecar at the same time.
use functional_tests.Base.{
  ℕ, zero, suc, count, select, not, ◌≡◌, ◌≢◌, ◌⊎◌, refl, ap, Bool, true, Option, none, some, [],
  ◌∷◌, length, arith, text_eq, nat_eq, if◌then◌else◌, ◌==◌,
}
use functional_tests.Base.Dict.{Dict}
use functional_tests.Base.Text.{Text, codes}
use functional_tests.Session.Sidecar.{
  Files, sidecar_path, replaced, warned, in_try, temp_path, mkdir, create, write, close, replace,
  System, pick, Run, Reach, start, later, Json, dict, load_deselected,
}
use functional_tests.Tests.Session.{items, detect, ended, gate_run, ids-Distinct}
use functional_tests.Analyzer.Feature.{deselected}
use functional_tests.Analyzer.Feature.Counts.{count_at}
use functional_tests.Analyzer.Results.{analyze_results}
use functional_tests.Session.Gate.Partition.{runs}
use functional_tests.Session.Gate.Reasons.{nodeids, texts, is_below}
use functional_tests.Session.Sidecar.Counted.{analyze_results-load_deselected}
use functional_tests.Session.Sidecar.Whole.{load_deselected_lem, temp_path-none, Reach-replaced}

abbrev tally : ℕ → Text
tally zero = []
tally (suc n) = b'1' ∷ tally n

length-tally : (n : ℕ) → length (tally n) ≡ n
length-tally zero = refl
length-tally (suc n) = omega (arith, length-tally n)

tally_injective : (i j : ℕ) → tally i ≡ tally j → i ≡ j
tally_injective i j same = omega (arith, ap length same, length-tally i, length-tally j)

abbrev report : Text
report = codes "r"

abbrev reasons : Dict Text Bool
reasons = (codes "oplog", true) ∷ []

abbrev contents : ℕ → Text
contents _ = codes "{o}"

abbrev parse : Text → Option (Json Text Bool)
parse text = if text == codes "{o}" then some (dict reasons) else none

abbrev no_files : Files
no_files path = none

abbrev Reached : System tally (sidecar_path report) contents → Type 0
Reached = Reach tally (sidecar_path report) contents no_files

-- Process 0 is at its end, process 1 has written a part, process 2 waits for `open`.
abbrev midway : (s : System tally (sidecar_path report) contents) × Reached s
unfolding text_eq nat_eq
midway = (
  _,
  later
      (later
        (later
          (later
            (later
              (later (later (later (later start (pick 0 mkdir)) (pick 1 mkdir)) (pick 1 create))
                (pick 0 create))
              (pick 1 (write (codes "{") refl)))
            (pick 0 (write (codes "{o}") refl)))
          (pick 0 close))
        (pick 0 (replace refl)))
      (pick 2 mkdir),
)

contents_parsed : (i : ℕ) → parse (contents i) ≡ some (dict reasons)
unfolding text_eq
contents_parsed i = refl

load_deselected_lem_example :
    ((load_deselected parse true (midway.0).files report
        ≡ load_deselected parse true no_files report)
      ⊎ (load_deselected parse true (midway.0).files report ≡ reasons))
    × ((i : ℕ)
        → (midway.0).pc i ≡ replaced
        → load_deselected parse true (midway.0).files report ≡ reasons)
load_deselected_lem_example =
    load_deselected_lem tally tally_injective parse report contents reasons contents_parsed
      (midway.1)

-- It is the second: process 0 has replaced the sidecar.
midway_reasons : load_deselected parse true (midway.0).files report ≡ reasons
unfolding midway load_deselected
midway_reasons = refl

temp_path-none_example :
    ((i : ℕ)
      → ((midway.0).pc i ≡ replaced) ⊎ ((midway.0).pc i ≡ warned)
      → (midway.0).files (temp_path tally (sidecar_path report) i) ≡ none)
    × ((path : Text)
        → path ≢ sidecar_path report
        → ((i : ℕ) → path ≢ temp_path tally (sidecar_path report) i)
        → (midway.0).files path ≡ no_files path)
temp_path-none_example =
    temp_path-none tally tally_injective (sidecar_path report) contents no_files (midway.1)

-- Process 1, which has written a part.
busy : in_try ((midway.0).pc 1) ≡ true
unfolding midway
busy = refl

Reach-replaced_example :
    (t : System tally (sidecar_path report) contents) × Run tally
      (sidecar_path report)
      contents
      1
      (midway.0)
      t
    × (t.pc 1 ≡ replaced)
    × (t.files (sidecar_path report) ≡ some (contents 1))
    × ((j : ℕ) → 1 ≢ j → t.pc j ≡ (midway.0).pc j)
Reach-replaced_example =
    Reach-replaced tally tally_injective (sidecar_path report) contents no_files {pid = 1}
      (midway.1) busy

-- The session of three items, one of which is left out.
abbrev dumped : Text
dumped = codes "{b}"

abbrev parse_session : Text → Option (Json Text (Dict Text Bool))
parse_session text = if text == dumped then some (dict (texts ended.reasons)) else none

session_parsed : parse_session dumped ≡ some (dict (texts ended.reasons))
unfolding text_eq
session_parsed = refl

abbrev finished :
    (s : System tally (sidecar_path report) (λ _. dumped)) × Reach tally
      (sidecar_path report)
      (λ _. dumped)
      no_files
      s
unfolding text_eq nat_eq
finished = (
  _,
  later
      (later
        (later (later (later (later start (pick 0 mkdir)) (pick 1 mkdir)) (pick 0 create))
          (pick 0 (write dumped refl)))
        (pick 0 close))
      (pick 0 (replace refl)),
)

done : (finished.0).pc 0 ≡ replaced
unfolding finished
done = refl

analyze_results-load_deselected_example :
    count_at deselected []
      (analyze_results
        (record { summary = []; tests = [] })
        (load_deselected parse_session true (finished.0).files report)).by_feature
    ≡ count (is_below []) (nodeids (select (λ i. not (runs detect i)) items))
analyze_results-load_deselected_example =
    analyze_results-load_deselected tally tally_injective detect (λ t u h. refl) items ended
      gate_run ids-Distinct parse_session dumped session_parsed report no_files (finished.0)
      (finished.1) 0 done (record { summary = []; tests = [] }) []
