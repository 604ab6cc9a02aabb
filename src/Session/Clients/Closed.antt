-- ===== src/Session/Clients/Closed.antt =====
-- Every client is closed, and a server that does not answer is counted as an infrastructure error.
use functional_tests.Base.{
  ℕ, suc, ◌-◌, ◌≡◌, ◌↔◌, refl, ap, true, Option, none, some, List, [], ◌∷◌, ◌++◌, arith, contains,
  string_eq, text_eq,
}
use functional_tests.Base.Text.{Text, codes, is_space}
use functional_tests.Analyzer.Report.{
  Phase, TestEntry, failing_phase_info, first_failed, has_outcome,
}
use functional_tests.Analyzer.Extract.{
  infra_exception_names, is_infra_message, is_infrastructure_error, crash_message, text_or_empty,
}
use functional_tests.Analyzer.Extract.Types.{is_infra_message_iff}
use functional_tests.Analyzer.Results.{failure_type_of}
use functional_tests.Session.Clients.{
  Call, connect, ping, close, Connected, client, connection_error, raised, cannot_connect,
  create_engine_client, engine_client, is_reachable,
}

-- The clients that are open after the calls, of which `n` were open before.
abbrev pub still_open : ℕ → List Call → ℕ
still_open n [] = n
still_open n (connect ∷ calls) = still_open (suc n) calls
still_open n (ping ∷ calls) = still_open n calls
still_open n (close ∷ calls) = still_open (n - 1) calls

-- A probe and a session leave no client open, whatever the driver answers; a server is found
-- reachable exactly if the session gets a client of it, and then alone is the client handed out
-- open.
pub engine_client-is_reachable :
    (connected pinged : Option Text) (connection_string engine_name : Text)
    → (still_open 0 ((engine_client connected pinged connection_string engine_name).0) ≡ 0)
      × (still_open 0 ((is_reachable connected pinged).0) ≡ 0)
      × (((is_reachable connected pinged).1 ≡ true)
          ↔ ((create_engine_client connected pinged connection_string engine_name).1 ≡ client))
      × (((is_reachable connected pinged).1 ≡ true) ↔ (
          still_open 0 ((create_engine_client connected pinged connection_string engine_name).0)
          ≡ 1))
unfolding engine_client is_reachable create_engine_client
engine_client-is_reachable none none cs name = (refl, refl, ground arith, ground arith)
engine_client-is_reachable none (some e) cs name = (refl, refl, ground arith, ground arith)
engine_client-is_reachable (some e) pinged cs name = (refl, refl, ground arith, ground arith)

-- The text that pytest records for an exception: its type, a colon, a space and its message.
-- `raised` has that text of its exception.
abbrev pub crash_text : Connected → Option Text
crash_text client = none
crash_text (connection_error e) = some (codes "ConnectionError: " ++ e)
crash_text (raised e) = some e

-- The entry of a test without a call whose set-up failed in the given way.
pub record SetupFailed (t : TestEntry) (message : Option Text) : Type 0 where
  pub phase : Phase
  pub no_call : t.call ≡ none
  pub at_setup : t.setup ≡ some phase
  pub outcome : phase.outcome ≡ some "failed"
  pub recorded : phase.message ≡ message

is_listed : contains infra_exception_names (codes "ConnectionError") ≡ true
unfolding infra_exception_names text_eq
is_listed = refl

space_is_space : is_space b' ' ≡ true
unfolding is_space
space_is_space = refl

crash_message-SetupFailed :
    (t : TestEntry) (message : Option Text)
    → SetupFailed t message
    → crash_message t ≡ text_or_empty message
unfolding failing_phase_info first_failed has_outcome string_eq
crash_message-SetupFailed t message at =
    rw (at.no_call, at.at_setup) (rw at.outcome (ap text_or_empty at.recorded))

failure_type_of-infra :
    (t : TestEntry)
    → is_infra_message (crash_message t) ≡ true
    → failure_type_of t ≡ codes "INFRA_ERROR"
unfolding failure_type_of is_infrastructure_error
failure_type_of-infra t infra = rw infra

-- A test without a call whose set-up failed as the server did not answer the ping is reported as an
-- infrastructure error, if the report has the text of the exception.
pub failure_type_of-create_engine_client :
    (ping_error connection_string engine_name : Text) (t : TestEntry)
    → SetupFailed t
        (crash_text (create_engine_client none (some ping_error) connection_string engine_name).1)
    → failure_type_of t ≡ codes "INFRA_ERROR"
unfolding create_engine_client
failure_type_of-create_engine_client ping_error cs name t at = failure_type_of-infra t (
    (is_infra_message_iff (crash_message t)).1 (
      codes "ConnectionError",
      is_listed,
      (b' ', cannot_connect cs name ping_error, crash_message-SetupFailed t _ at, space_is_space),
    ))
