-- ===== src/Registry.antt =====
-- The test targets of dev/compose.yaml (framework/engine_registry.py) and the CI matrix
-- (framework/ci_matrix.py).
pub mod Initiate
pub mod Matrix
use functional_tests.Base.{
  ℕ, String, ◌<>◌, Bool, true, false, not, Option, none, some, List, [], ◌∷◌, ◌++◌, string_eq,
  nat_eq, select, map, if◌then◌else◌,
}
use functional_tests.Base.Dict.{Dict, lookup}
use functional_tests.Base.Text.{Text, codes, split_on}

-- A missing `query` and an empty one are the same, as the code tests its truth. A block without an
-- `engine`, on which the code raises a `KeyError`, is left out.
pub record Spec : Type 0 where
  pub engine : String
  pub query : Text

-- A service as the file declares it: without an `x-test-target` block the spec is `none`, and a
-- missing list is the empty one.
pub record Service : Type 0 where
  pub spec : Option Spec
  pub ports : List Text
  pub profiles : List String

pub record Target : Type 0 where
  pub name : String
  pub engine : String
  pub connection_string : Text

unfoldable first_field : List Text → Text
first_field [] = []
first_field (t ∷ _) = t

unfoldable pub host_port : Service → Option Text
unfolding first_field
host_port service = elim (service.ports) [
  | [] ↦ none
  | p ∷ _ ↦ some (first_field (split_on b':' p))
]

-- `f"mongodb://localhost:{port}"` and, with a query, `f"/?{query}"` after it.
unfoldable pub connection_string : Text → Text → Text
connection_string port query =
    codes "mongodb://localhost:" ++ port ++ (elim query [ [] ↦ [] | c ∷ q ↦ codes "/?" ++ c ∷ q ])

unfoldable pub target_of : String → Service → Option Target
unfolding host_port
target_of name service = elim (service.spec) [
  | none ↦ none
  | some spec ↦ elim (host_port service) [
    | none ↦ none
    | some port ↦ some (record {
      name = name;
      engine = spec.engine;
      connection_string = connection_string port (spec.query);
    })
  ]
]

abbrev also : Option Target → List Target → List Target
also none ts = ts
also (some t) ts = t ∷ ts

unfoldable pub load_targets : Dict String Service → List Target
unfolding target_of
load_targets [] = []
load_targets ((name, service) ∷ services) = also (target_of name service) (load_targets services)

-- The probe of a server, that it answers a ping in time, is a parameter.
unfoldable pub live_targets : (Text → Bool) → Dict String Service → List Target
unfolding load_targets
live_targets is_reachable services =
    select (λ t. is_reachable (t.connection_string)) (load_targets services)

-- A row of the matrix.
pub record Entry : Type 0 where
  pub name : String
  pub profile : String
  pub connection_string : Text
  pub engine : String

-- `none` is the `KeyError` of a name that the file lacks.
unfoldable pub profile_for : String → Dict String Service → Option String
profile_for name services = elim (lookup name services) [
  | none ↦ none
  | some service ↦ elim (service.profiles) [ [] ↦ some name | p ∷ _ ↦ some p ]
]

unfoldable pub entry : Target → Option String → Option Entry
entry t none = none
entry t (some profile) = some (record {
  name = t.name;
  profile = profile;
  connection_string = t.connection_string;
  engine = t.engine;
})

-- The list of the rows, which the first error ends.
unfoldable pub all_entries : List (Option Entry) → Option (List Entry)
all_entries [] = some []
all_entries (none ∷ es) = none
all_entries (some e ∷ es) = elim (all_entries es) [ none ↦ none | some rest ↦ some (e ∷ rest) ]

unfoldable pub build_matrix : Dict String Service → Option (List Entry)
unfolding all_entries entry profile_for load_targets
build_matrix services =
    all_entries (map (λ t. entry t (profile_for (t.name) services)) (load_targets services))
