-- ===== src/Session/Clients.antt =====
-- The clients of a session: `create_engine_client` of framework/fixtures.py, the fixture
-- `engine_client` of conftest.py, and `_is_reachable` of framework/engine_registry.py. What the driver
-- answers, that `MongoClient(...)` or the ping raises and with which text, is an argument.
pub mod Closed
use functional_tests.Base.{
  ℕ, Bool, true, false, Option, none, some, List, [], ◌∷◌, ◌++◌, if◌then◌else◌,
}
use functional_tests.Base.Text.{Text, codes}

-- The calls of the driver, in their order: `connect` is a `MongoClient(...)` that gives a client.
pub data Call : Type 0 where
  connect : Call
  ping : Call
  close : Call

-- The client, the `ConnectionError` with its text, or the exception of `MongoClient(...)`.
pub data Connected : Type 0 where
  client : Connected
  connection_error : Text → Connected
  raised : Text → Connected

abbrev pub cannot_connect : Text → Text → Text → Text
cannot_connect connection_string engine_name e =
    codes "Cannot connect to "
    ++ engine_name
    ++ codes " at "
    ++ connection_string
    ++ codes ": "
    ++ e

unfoldable pub create_engine_client :
    Option Text → Option Text → Text → Text → List Call × Connected
create_engine_client (some e) pinged connection_string engine_name = ([], raised e)
create_engine_client none none connection_string engine_name = (connect ∷ ping ∷ [], client)
create_engine_client none (some e) connection_string engine_name =
    (connect ∷ ping ∷ close ∷ [], connection_error (cannot_connect connection_string engine_name e))

-- The fixture, with the tests of the target between the `yield` and the close, if there are any.
abbrev close_client : List Call × Connected → List Call × Connected
close_client (calls, client) = (calls ++ close ∷ [], client)
close_client (calls, connection_error e) = (calls, connection_error e)
close_client (calls, raised e) = (calls, raised e)

unfoldable pub engine_client : Option Text → Option Text → Text → Text → List Call × Connected
unfolding create_engine_client
engine_client connected pinged connection_string engine_name =
    close_client (create_engine_client connected pinged connection_string engine_name)

-- The `finally` closes the client whatever the ping gives.
unfoldable pub is_reachable : Option Text → Option Text → List Call × Bool
is_reachable (some e) pinged = ([], false)
is_reachable none none = (connect ∷ ping ∷ close ∷ [], true)
is_reachable none (some e) = (connect ∷ ping ∷ close ∷ [], false)
