-- ===== src/Tests/Session.antt =====
-- The merge of two reports, the gating of items, and the tables of capabilities.
use mathlib.Core.Option
use functional_tests.Base.{
  ◌==◌, if◌then◌else◌, ap, sym, map, ◌∙◌, String, ◌≡◌, ◌<◌, ◌++◌, ◌&&◌, drop, refl, ◌↔◌, Bool, true,
  false, not, Option, none, some, List, [], ◌∷◌, ◌+◌, all, select, contains, string_eq,
}
use functional_tests.Base.Dict.{Dict}
use mathlib.Core.List.{Permᴰ, Memᴰ}
use functional_tests.Content.{pass, determine_verdict}
use functional_tests.Session.Merge.Verdict.{IsGood, determine_verdict-merge_summaries}
use functional_tests.Analyzer.Reconcile.{count_or_zero, build_reconciliation}
use functional_tests.Preconditions.{
  capabilities_known, capabilities_by_profile, Detected, capabilities, Client, unmet,
  unmet_requirements, detect_capabilities, check_consistency, mapped, is_remote, without,
  detect_topology, find_profile,
}
use functional_tests.Preconditions.Gating.{unmet_requirements_none}
use functional_tests.Session.Merge.{Summary, merge_summaries}
use functional_tests.Session.Gate.{Target, Item, Gating, ok, gate_all, gate, start, parallel_items}
use functional_tests.Session.Gate.Partition.{runs, gate_all_lem}
use functional_tests.Session.Gate.Reasons.{nodeids}
use functional_tests.Session.Merge.Sums.{Distinct}
use functional_tests.Session.Validate as Validate
use functional_tests.Session.Validate.{Files, exits}
use functional_tests.Session.Collect.{Collection, done, unwritten, raises, modify_items}
use functional_tests.Session.Sidecar.{Pc, replaced, warned}
use functional_tests.Session.Collect.Run.{flat, modify_items_lem}
use functional_tests.Session.Phases.{Config, phase_2_command}
use functional_tests.Session.Phases.Partition.{
  expression, selected, in_phase_2, phase_2_command-parallel_items,
}

abbrev phase_1 : Summary
phase_1 = ("total", 2) ∷ ("passed", 2) ∷ ("collected", 2) ∷ ("deselected", 1) ∷ []

abbrev phase_2 : Summary
phase_2 = ("failed", 1) ∷ ("total", 1) ∷ ("collected", 4) ∷ []

abbrev needs_oplog : Dict String Bool
needs_oplog = ("oplog", true) ∷ ("reindex", false) ∷ []

unmet_requirements_none_example :
    (unmet_requirements capabilities_known needs_oplog ("oplog" ∷ []) ≡ unmet []) ↔ (
      (name : String) (wanted : Bool)
      → Memᴰ (name, wanted) needs_oplog
      → (contains capabilities_known name ≡ true) × (contains ("oplog" ∷ []) name ≡ wanted))
unmet_requirements_none_example =
    unmet_requirements_none capabilities_known needs_oplog ("oplog" ∷ [])

tables_agree : check_consistency capabilities_known capabilities_by_profile ≡ none
unfolding check_consistency capabilities_known capabilities_by_profile mapped without string_eq
tables_agree = refl

abbrev client : Client
client = record { set_name = some true; seen_host = some "10.0.0.7" }

abbrev small_table : List ((String × String) × List String)
small_table = (("mongodb", "replica_set"), "oplog" ∷ "remote_target" ∷ []) ∷ []

remote_detected :
    detect_capabilities small_table "mongodb" (some client)
    ≡ capabilities ("oplog" ∷ "remote_target" ∷ [])
unfolding detect_capabilities detect_topology find_profile is_remote string_eq
remote_detected = refl

remote_listed : contains {A = String} ("oplog" ∷ "remote_target" ∷ []) "remote_target" ≡ true
unfolding string_eq
remote_listed = refl

abbrev target : Target
target = record { name = "t"; engine = "mongodb"; connection_string = "mongodb://a" }

abbrev item : String → Option (Dict String Bool) → Item
item nodeid required = record {
  nodeid = nodeid;
  required = required;
  target = some target;
  no_parallel = false;
}

abbrev pub items : List Item
items =
    item "a" (some (("oplog", true) ∷ []))
    ∷ item "b" (some (("oplog", false) ∷ []))
    ∷ item "c" none
    ∷ []

abbrev pub detect : Target → Detected
detect t = capabilities ("oplog" ∷ [])

abbrev pub ended : Gating
ended = record {
  capabilities_by_target = ("mongodb://a", "oplog" ∷ []) ∷ [];
  kept = item "a" (some (("oplog", true) ∷ [])) ∷ item "c" none ∷ [];
  deselected = item "b" (some (("oplog", false) ∷ [])) ∷ [];
  reasons = ("b", ("oplog", false) ∷ []) ∷ [];
}

pub gate_run : gate_all detect items start ≡ ok ended
unfolding gate_all gate unmet_requirements without capabilities_known string_eq
gate_run = refl

gate_all_lem_example :
    (ended.kept ≡ select (runs detect) items)
    × (ended.deselected ≡ select (λ i. not (runs detect i)) items)
gate_all_lem_example = gate_all_lem detect (λ t u h. refl) items ended gate_run

oplog_known : all (contains capabilities_known) ("oplog" ∷ []) ≡ true
unfolding capabilities_known string_eq
oplog_known = refl

pub ids-Distinct : Distinct (nodeids items)
unfolding string_eq
ids-Distinct = (refl, (refl, (refl, tt)))

-- Items by their names, as a marker of their own has them.
abbrev is_one_of : List String → Item → Bool
is_one_of names i = contains names i.nodeid

-- The expressions of a run with `-m "find or slow"`, where `n` and `a` are marked `find` and `b` is
-- marked `slow`.
abbrev compile : String → Option (Item → Bool)
compile e =
    if e == "no_parallel"
    then some (λ i. i.no_parallel)
    else if e == "find or slow"
    then some (is_one_of ("n" ∷ "a" ∷ "b" ∷ []))
    else if e == "no_parallel and (find or slow)"
    then some (λ i. i.no_parallel && is_one_of ("n" ∷ "a" ∷ "b" ∷ []) i)
    else none

abbrev config : Config
config = record {
  numprocesses = true;
  is_worker = false;
  markexpr = "find or slow";
  connection_string = "";
  engine_name = "default";
  json_report = some "r.json";
  junit_report = none;
  args = "tests" ∷ [];
}

abbrev two_items : List Item
two_items =
    record { nodeid = "n"; required = none; target = some target; no_parallel = true } ∷ items

name_compiled : compile "no_parallel" ≡ some (λ i. i.no_parallel)
unfolding string_eq
name_compiled = refl

users_compiled : compile "find or slow" ≡ some (is_one_of ("n" ∷ "a" ∷ "b" ∷ []))
unfolding string_eq
users_compiled = refl

users_selected : selected compile "find or slow" ≡ some (is_one_of ("n" ∷ "a" ∷ "b" ∷ []))
unfolding string_eq
users_selected = refl

both_compiled :
    compile "no_parallel and (find or slow)" ≡ some (in_phase_2 (is_one_of ("n" ∷ "a" ∷ "b" ∷ [])))
unfolding string_eq
both_compiled = refl

conjunction_compiled :
    (p : Item → Bool)
    → compile "find or slow" ≡ some p
    → compile "no_parallel and (find or slow)" ≡ some (in_phase_2 p)
conjunction_compiled p h = both_compiled ∙ ap (Option.map in_phase_2) (sym users_compiled ∙ h)

phase_2_command-parallel_items_example :
    (q : Item → Bool) × (selected compile
        (expression (drop 6 (phase_2_command config "python" "p.json" "p.xml")))
      ≡ some q)
    × Permᴰ
        (parallel_items true (select (is_one_of ("n" ∷ "a" ∷ "b" ∷ [])) two_items)
          ++ select q two_items)
        (select (is_one_of ("n" ∷ "a" ∷ "b" ∷ [])) two_items)
phase_2_command-parallel_items_example =
    phase_2_command-parallel_items compile config "python" "p.json" "p.xml" name_compiled
      conjunction_compiled (is_one_of ("n" ∷ "a" ∷ "b" ∷ [])) users_selected two_items

determine_verdict-merge_summaries_example :
    ((determine_verdict (build_reconciliation (merge_summaries phase_1 phase_2)).counts).0 ≡ pass)
    ↔ (IsGood phase_1
        × IsGood phase_2
        × (0 < count_or_zero phase_1 "passed" + count_or_zero phase_2 "passed"))
determine_verdict-merge_summaries_example = determine_verdict-merge_summaries phase_1 phase_2

abbrev files : Files
files = record { parts = λ path. []; below = λ dir. []; tree = λ path. none; error_codes = some [] }

abbrev rest_of : Item → Validate.Item
rest_of i = record { nodeid = i.nodeid; fspath = []; params = none }

-- Only for an empty dict does the write come to its end without a warning.
abbrev write : Dict String (Dict String Bool) → Option Pc
write [] = some replaced
write (_ ∷ _) = some warned

modify_items_lem_example :
    (c : Collection) × (modify_items detect files rest_of write true two_items
      ≡ (if raises (write c.reasons) then unwritten else done c))
    × (c.items ≡ parallel_items true (select (runs detect) two_items))
    × Permᴰ (c.items ++ flat c.reported) two_items
    × (c.ended ≡ exits files (map rest_of (parallel_items true (select (runs detect) two_items))))
modify_items_lem_example =
    modify_items_lem detect files rest_of write (λ t. ("oplog" ∷ [], refl)) (λ t u h. refl) true
      two_items (refl, (oplog_known, (oplog_known, (refl, tt))))
