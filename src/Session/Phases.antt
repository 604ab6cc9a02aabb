-- ===== src/Session/Phases.antt =====
-- The second phase of a parallel run: `pytest_sessionfinish` of conftest.py.
pub mod Status
pub mod Partition
use functional_tests.Session.Merge.{JsonReport, merge_json_reports}
use functional_tests.Session.Junit.{Suite, merge_junit_xml}
use functional_tests.Base.{
  ℕ, zero, suc, String, ◌<>◌, Bool, true, false, not, ◌&&◌, Option, none, some, List, [], ◌∷◌, ◌++◌,
  ◌==◌, nat_eq, string_eq, if◌then◌else◌,
}

-- What the hook reads of the configuration. A report's path is `none` if it has none or if no file is
-- there.
pub record Config : Type 0 where
  pub numprocesses : Bool
  pub is_worker : Bool
  pub markexpr : String
  pub connection_string : String
  pub engine_name : String
  pub json_report : Option String
  pub junit_report : Option String
  pub args : List String

abbrev pub is_xdist_controller : Config → Bool
is_xdist_controller c = c.numprocesses && not c.is_worker

abbrev pub marker_args : String → List String
marker_args expr =
    if expr == ""
    then "-m" ∷ "no_parallel" ∷ []
    else "-m" ∷ ("no_parallel and (" <> (expr <> ")")) ∷ []

abbrev target_args : Config → List String
target_args c =
    if c.connection_string == ""
    then []
    else "--connection-string" ∷ c.connection_string ∷ "--engine-name" ∷ c.engine_name ∷ []

-- The arguments for a report, to the temporary file of the given name.
abbrev json_args : Option String → String → List String
json_args none temp = []
json_args (some _) temp = "--json-report" ∷ ("--json-report-file=" <> temp) ∷ []

abbrev junit_args : Option String → String → List String
junit_args none temp = []
junit_args (some _) temp = ("--junitxml=" <> temp) ∷ []

-- `cmd`, with the interpreter and the names of two temporary files.
unfoldable pub phase_2_command : Config → String → String → String → List String
phase_2_command c executable temp_json temp_junit =
    (executable ∷ "-m" ∷ "pytest" ∷ "-p" ∷ "no:xdist" ∷ "-v" ∷ [])
    ++ marker_args c.markexpr
    ++ target_args c
    ++ json_args c.json_report temp_json
    ++ junit_args c.junit_report temp_junit
    ++ c.args

-- `session.exitstatus` after the call of the command with the given exit code.
unfoldable pub phase_2_status : ℕ → ℕ → ℕ
phase_2_status result status = if result == 5 then status else if result == 0 then status else 1

-- `session.exitstatus` at the end of the hook, which is called with `exitstatus`.
unfoldable pub session_finish : Config → ℕ → ℕ → ℕ → ℕ
unfolding phase_2_status
session_finish c exitstatus status result =
    if is_xdist_controller c
    then (if exitstatus == 0 then phase_2_status result status else exitstatus)
    else status

-- The merge of a report of the second phase into that of the first, where each has one: a report is
-- `none` if there is no file or it cannot be parsed, which leaves that of the first phase as it is.
abbrev pub merged : {R : Type 0} → (R → R → R) → Option R → Option R → Option R
merged merge none q = none
merged merge (some p) none = some p
merged merge (some p) (some q) = some (merge p q)

-- The reports of the first phase at the end of the hook; a suite is `none` in a file without one.
unfoldable pub finish_reports :
    {T C : Type 0}
    → Config
    → Option (JsonReport T) × Option (Option (Suite C))
    → Option (JsonReport T) × Option (Option (Suite C))
    → Option (JsonReport T) × Option (Option (Suite C))
unfolding merge_json_reports merge_junit_xml
finish_reports c (json_1, junit_1) (json_2, junit_2) =
    if is_xdist_controller c
    then (merged merge_json_reports json_1 json_2, merged merge_junit_xml junit_1 junit_2)
    else (json_1, junit_1)
