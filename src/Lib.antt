-- ===== src/Lib.antt =====
-- Models of the framework that runs the functional tests of a MongoDB compatible server, and of
-- the analyzer that turns a run's report into a verdict. Paths are from the repository's root; F is
-- documentdb_tests/framework and R is documentdb_tests/compatibility/result_analyzer.
--
-- The parts, in the order of a run. pytest collects tests; documentdb_tests/conftest.py deselects
-- those whose `requires` marker does not fit the target (F/preconditions.py) and, under xdist, runs
-- the `no_parallel` ones in a second phase, whose report it merges into the first. A test resolves
-- its collection (F/target_collection.py), runs a command and hands the result to an assertion
-- (F/assertions.py), which compares values strictly (F/bson_compare.py) or field by field
-- (F/property_checks.py). The tag in an assertion's message is what R/analyzer.py reads back from
-- the JSON report. The analyzer builds totals, a tree of features and test details, and
-- R/report_content.py makes the verdict and the sections of them.
--
--   Session/Merge   `_merge_json_reports` of documentdb_tests/conftest.py, and Analysis and Verdict
--                   for what the analyzer makes of a merged report
--   Session/Sidecar `_write_deselected_sidecar`, by processes in any interleaving, and the
--                   `_load_deselected` of R/analyzer.py that reads what they wrote
--   Session/Clients the client of a session and the probe of a server: `create_engine_client` of
--                   F/fixtures.py, `engine_client`, `_is_reachable` of F/engine_registry.py
--   Session/Fixtures  the fixtures of a test and their teardown, with the cleanups of F/fixtures.py
--   Session/Junit   `_merge_junit_xml`, and Session/Phases for `pytest_sessionfinish`
--   Session/Validate  the validation of the collected items at the end of
--                   `pytest_collection_modifyitems`
--   Session/Collect `pytest_collection_modifyitems` as a whole, of the gate, the end of the
--                   sidecar's write, and the validation
--   Session/Setup   `pytest_configure`, `pytest_runtest_setup`, `pytest_json_runtest_metadata`,
--                   `register_db_cleanup`
--   Session/Gate    the gating loop of `pytest_collection_modifyitems`, and the xdist split. The
--                   loop's variables are the record Gating; an exception is the result `raised`.
--   Preconditions   F/preconditions.py; what the driver answers is the record Client.
--   Targets         F/target_collection.py; `resolve` yields the calls made of the database.
--   Assertions      F/assertions.py: assertSuccess, assertSuccessPartial, assertFailure,
--                   assertFailureCode, `_extract_partial`, `_walk_path`, assertProperties,
--                   assertSuccessNaN; Dispatch for assertResult, assertNotError and
--                   assertExceptionType
--   Bson            F/bson_compare.py, and the same function in F/assertions.py
--   Checks          F/property_checks.py, with one constructor for each class
--   ErrorCodes      F/error_codes_validator.py, and Table for F/error_codes.py
--   Structure       F/test_structure_validator.py
--   Format, Markers F/test_format_validator.py and F/marker_reason_validator.py, over the syntax
--                   trees of Ast, whose `walk` is Python's `ast.walk`; Markers/Described
--                   says apart from the code what an explanation is
--   Payload         F/lazy_payload.py and F/large_payload_guard.py
--   Registry        F/engine_registry.py and F/ci_matrix.py: the targets of the compose file, its
--                   matrix, and Initiate for `ensure_initiated`
--   Executor        F/executor.py
--   Names           the generated names of F/fixtures.py
--   BsonTypes       F/bson_type_validator.py
--   TestCases       F/test_case.py and F/parametrize.py
--   Numbers         the numbers of F/test_constants.py and their lists
--   RawBson         F/bson_helpers.py, with `bson.encode` and RawBSONDocument as parameters
--   Analyzer        R/analyzer.py: Report (entries, outcomes), Extract (messages, tags, skip
--                   reasons, infrastructure errors), Feature (tree), Reconcile (totals),
--                   Results (the analysis of a report)
--   Content         R/report_content.py
--   Render          R/render_markdown.py: cells, fences and colors; Sections; Tree for the feature
--                   breakdown; and Plain for R/render_text.py
--   Cli             R/cli.py and R/report_generator.py
--   Hooks           hooks/verify_dco.py and hooks/sign_off.py
--   Base            shared notation, lists, dicts, texts and their laws
--   Tests           runs and examples
--
-- Processes that write the sidecar are a step relation on the files and the place of each process;
-- every call may fail, and a process that is killed takes no further step. The driver, pytest's
-- reading of `-m`, a server's state and what git prints are parameters with the laws that the code
-- relies on.
--
-- Choices. Texts that the code searches are lists of code points, and each `re` pattern is a
-- matcher that takes the alternatives in the order of Python's. The matchers, the trees and the
-- loops over data are structural recursions, so no fuel is needed. The two loops that wait, of
-- `ensure_initiated` and of `execute_admin_with_retry_command`, take fuel for their turns; as the
-- clock goes on by a unit at least in each turn, which sleeps, as many turns as the timeout has
-- units and one are enough. A server is a function from what it was sent, and a clock one from the
-- number of a reading. A dict is an association list in insertion
-- order; a set is a list of which only membership is read. A missing key is `none`. Python objects
-- that are no containers are atoms of a type that the models take as a parameter, together with
-- what `type`, `==`, `bool` and `len` say of them (Host); so are `sorted` and the orders `<=` and
-- `<`. Durations are whole numbers; the pass rate is kept as its two
-- operands, and the printed one is in tenths. Texts of messages are
-- reduced to their tags, and an exception is a value. Expected values are those that `materialize`
-- has built.
--
-- Not modelled: reading, parsing and writing of files but for the sidecar, R/render_json.py, which
-- is a call of `json.dumps`, the parsing of arguments, the declaration of pytest's options,
-- the dates, timestamps and object ids of F/test_constants.py, and the tests of the server under
-- documentdb_tests/compatibility/tests, which are data for this framework.
pub mod Base
pub mod Analyzer
pub mod Content
pub mod Preconditions
pub mod Bson
pub mod Checks
pub mod ErrorCodes
pub mod Session
pub mod Targets
pub mod Assertions
pub mod Payload
pub mod Ast
pub mod Markers
pub mod Format
pub mod Structure
pub mod Registry
pub mod Cli
pub mod Executor
pub mod Names
pub mod BsonTypes
pub mod RawBson
mod Tests
pub mod Render
pub mod Hooks
pub mod TestCases
pub mod Numbers
