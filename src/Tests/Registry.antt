-- ===== src/Tests/Registry.antt =====
-- Targets, the initiation of a replica set, retries and names.
use functional_tests.Base.{
  ℕ, zero, suc, ◌+◌, ◌≤◌, ◌<◌, ◌≡◌, length, ◌≢◌, refl, ap, inl, true, false, none, some, List, [],
  ◌∷◌, map, arith, String, string_eq, nat_eq, if◌then◌else◌,
}
use functional_tests.Base.Dict.{Dict}
use functional_tests.Base.Text.{Text, codes, split_on}
use functional_tests.Registry.{Service, Target, load_targets, connection_string}
use functional_tests.Registry.Initiate.{
  repl_set_get_status, repl_set_initiate, hello, get_mongot_host, create_user, close, answered,
  failed, broken, returned, timeout_error, out_of_fuel, Server, get_status, ensure_initiated,
  ensure_search_user,
}
use functional_tests.Registry.Initiate.Outcomes.{outcome, ensure_initiated-ended}
use functional_tests.Registry.Initiate.Primary.{
  polled, started, Waiting, Elected, ensure_initiated-Elected, ensure_initiated-timeout,
}
use functional_tests.Registry.Initiate.Once.{
  initiations, is_uninitiated, ensure_initiated-initiations,
}
use functional_tests.Payload.Lazy.{Payload, atom, lazy, materialize}
use functional_tests.Executor.{Answer, success, error, execute_admin_with_retry_command}
use functional_tests.Executor.Retry.{LastOf, execute_admin_with_retry_command_lem}
use functional_tests.Names.{name_hash, generate_database_name, generate_collection_name}
use functional_tests.Names.Unique.{generate_names-name_hash}

abbrev service : List Text → List String → Service
service ports profiles = record {
  spec = some (record { engine = "mongodb"; query = codes "directConnection=true" });
  ports = ports;
  profiles = profiles;
}

abbrev services : Dict String Service
services =
    ("mongo", service (codes "27017:27017" ∷ []) ("mongo" ∷ "all" ∷ []))
    ∷ ("init", record { spec = none; ports = []; profiles = [] })
    ∷ ("bare", service (codes "27018:27017" ∷ []) [])
    ∷ []

connection_strings :
    map (λ (t : Target). t.connection_string) (load_targets services)
    ≡ codes "mongodb://localhost:27017/?directConnection=true"
      ∷ codes "mongodb://localhost:27018/?directConnection=true"
      ∷ []
unfolding load_targets nat_eq connection_string split_on
connection_strings = refl

-- A set that is not initiated, without a search sidecar, whose primary is there at the second poll.
abbrev server : Server
server (hello ∷ _) hello = answered true
server _ hello = answered false
server _ repl_set_get_status = failed (some 94)
server _ repl_set_initiate = answered true
server _ get_mongot_host = answered false
server _ create_user = broken
server _ close = broken

abbrev ticks : ℕ → ℕ
ticks n = n

ticks-advance : (i : ℕ) → ticks i < ticks (suc i)
ticks-advance i = omega arith

ensure_initiated-ended_example : outcome (ensure_initiated server ticks 60 61) ≢ out_of_fuel
ensure_initiated-ended_example = ensure_initiated-ended server ticks 60 ticks-advance

elected : Elected server ticks (ticks 0 + 60) 1 1 started
unfolding Elected Waiting
elected = ((omega arith, refl, tt), omega arith, refl)

no_search : outcome (ensure_search_user server (polled 2 started)) ≡ returned
unfolding ensure_search_user
no_search = refl

ensure_initiated-Elected_example :
    ensure_initiated server ticks 60 9
    ≡ (close ∷ (ensure_search_user server (polled 2 started)).0, returned)
ensure_initiated-Elected_example =
    ensure_initiated-Elected server ticks 60 9 1 refl (inl refl) elected no_search (omega arith)

-- A set that elects no primary.
abbrev stuck : Server
stuck _ hello = answered false
stuck _ repl_set_get_status = failed (some 94)
stuck _ repl_set_initiate = failed (some 23)
stuck _ _ = broken

stuck_times_out : outcome (ensure_initiated stuck ticks 3 9) ≡ timeout_error
unfolding ensure_initiated nat_eq
stuck_times_out = refl

ensure_initiated-timeout_example :
    (k : ℕ) × Waiting stuck ticks (ticks 0 + 3) k 1 (repl_set_initiate ∷ (get_status stuck []).0)
    × (ticks 0 + 3 ≤ ticks (1 + k))
    × ((ensure_initiated stuck ticks 3 9).0
        ≡ close ∷ polled k (repl_set_initiate ∷ (get_status stuck []).0))
ensure_initiated-timeout_example = ensure_initiated-timeout stuck ticks 3 9 stuck_times_out

ensure_initiated-initiations_example :
    initiations ((ensure_initiated server ticks 60 9).0)
    ≡ (if is_uninitiated ((get_status server []).1) then 1 else 0)
ensure_initiated-initiations_example = ensure_initiated-initiations server ticks 60 9

-- A command that fails twice with the code 17 and then succeeds.
abbrev run : ℕ → Payload ℕ → Answer ℕ
run zero _ = error (some 17)
run (suc zero) _ = error (some 17)
run (suc (suc n)) _ = success n

execute_admin_with_retry_command_lem_example :
    (k : ℕ) × LastOf run ticks (lazy (atom 1)) 17 (ticks 0 + 5) k 0
    × (execute_admin_with_retry_command run ticks (lazy (atom 1)) 17 5 6
        ≡ some (run k ((materialize (lazy (atom 1))).0)))
execute_admin_with_retry_command_lem_example =
    execute_admin_with_retry_command_lem run ticks (lazy (atom 1)) 17 5 ticks-advance

retries_twice : execute_admin_with_retry_command run ticks (lazy (atom 1)) 17 5 6 ≡ some (success 0)
unfolding execute_admin_with_retry_command nat_eq
retries_twice = refl

-- A digest of 64 characters that all are the first of the text.
abbrev repeated : ℕ → ℕ → Text
repeated zero c = []
repeated (suc n) c = c ∷ repeated n c

abbrev digest : Text → Text
digest [] = repeated 64 0
digest (c ∷ _) = repeated 64 c

abbrev first : Text → ℕ
first [] = 0
first (c ∷ _) = c

hashes_differ : name_hash digest (codes "a.py::t[x]") ≢ name_hash digest (codes "b.py::t[x]")
hashes_differ same = omega (arith, ap first same)

generate_names-name_hash_example :
    (length (generate_database_name digest (codes "a.py::t[x]") (codes "gw0")) ≤ 63)
    × (length (generate_collection_name digest (codes "a.py::t[x]") (codes "gw0")) ≤ 100)
    × (generate_database_name digest (codes "a.py::t[x]") (codes "gw0")
        ≢ generate_database_name digest (codes "b.py::t[x]") (codes "gw0"))
    × (generate_collection_name digest (codes "a.py::t[x]") (codes "gw0")
        ≢ generate_collection_name digest (codes "b.py::t[x]") (codes "gw0"))
generate_names-name_hash_example =
    generate_names-name_hash digest (codes "a.py::t[x]") (codes "b.py::t[x]") (codes "gw0")
      (omega arith) refl refl hashes_differ

database_name :
    generate_database_name digest (codes "a.py::t[x]") (codes "gw0")
    ≡ codes "test_gw0_aaaaaaaa_t_x_"
unfolding generate_database_name nat_eq
database_name = refl
