-- ===== src/Preconditions.antt =====
-- Capability gating of tests (framework/preconditions.py).
pub mod Gating
use functional_tests.Base.{
  ℕ, String, ◌<>◌, Bool, true, false, not, ◌&&◌, ◌||◌, Option, none, some, List, [], ◌∷◌, ◌++◌, map,
  ◌==◌, contains, string_eq, all, any, select, if◌then◌else◌,
}
use functional_tests.Base.Dict.{Dict, keys, values, lookup}

-- The names that `_CAPABILITY_DESCRIPTIONS` describes, which are `CAPABILITIES`.
unfoldable pub capabilities_known : List String
capabilities_known =
    "change_streams" ∷ "transactions" ∷ "queryable_encryption" ∷ "cluster_admin" ∷ "cluster_time"
    ∷ "cluster_read_concern" ∷ "quorum_write_concern" ∷ "oplog" ∷ "unforced_compact" ∷ "reindex"
    ∷ "local_rename" ∷ "search" ∷ "replication" ∷ "remote_target" ∷ "validate_repair" ∷ []

-- An engine and a topology.
abbrev pub Profile : Type 0
Profile = String × String

abbrev pub shared : List String
shared =
    "change_streams" ∷ "transactions" ∷ "queryable_encryption" ∷ "cluster_admin" ∷ "cluster_time"
    ∷ "cluster_read_concern" ∷ "quorum_write_concern" ∷ []

-- `_CAPABILITIES_BY_PROFILE`. The sets are lists; their order means nothing.
unfoldable pub capabilities_by_profile : List (Profile × List String)
capabilities_by_profile =
    (
      ("mongodb", "replica_set"),
      shared ++ "search" ∷ "oplog" ∷ "replication" ∷ "remote_target" ∷ [],
    )
    ∷ (
      ("mongodb", "standalone"),
      "unforced_compact" ∷ "reindex" ∷ "local_rename" ∷ "remote_target" ∷ "validate_repair" ∷ [],
    )
    ∷ (
      ("documentdb", "standalone"),
      shared
          ++ "unforced_compact" ∷ "reindex" ∷ "replication" ∷ "remote_target" ∷ "validate_repair"
            ∷ [],
    )
    ∷ (
      ("amazon-documentdb", "replica_set"),
      shared ++ "oplog" ∷ "unforced_compact" ∷ "reindex" ∷ "replication" ∷ "validate_repair" ∷ [],
    )
    ∷ []

-- The names of a list that another lacks, as a set difference.
unfoldable pub without : List String → List String → List String
without names known = select (λ name. not (contains known name)) names

unfoldable pub mapped : List (Profile × List String) → List String
mapped [] = []
mapped ((_, names) ∷ table) = names ++ mapped table

-- `RuntimeError`s, with what their messages name.
pub data Error : Type 0 where
  undescribed unsatisfiable unknown_capabilities : List String → Error
  no_mapping : Profile → Error
  unknown_engine : String → Error

-- `_check_consistency`: `none` where it returns.
unfoldable pub check_consistency : List String → List (Profile × List String) → Option Error
check_consistency described table =
    let unknown = without (mapped table) described in
    let idle = without described (mapped table) in
    elim unknown [
      | [] ↦ elim idle [ [] ↦ none | n ∷ ns ↦ some (unsatisfiable (n ∷ ns)) ]
      | n ∷ ns ↦ some (undescribed (n ∷ ns))
    ]

-- What a live connection answers; `none` where the command raises. `set_name` says whether
-- `hello` reports a nonempty `setName`, `seen_host` is the host part of what `whatsmyuri` reports.
pub record Client : Type 0 where
  pub set_name : Option Bool
  pub seen_host : Option String

pub data Topology : Type 0 where
  named : String → Topology
  raised : Topology

-- `_detect_topology`; the `ValueError` of an unknown engine is one of the exceptions that
-- `detect_capabilities` catches, so it is no more than `raised`.
unfoldable pub detect_topology : String → Client → Topology
detect_topology engine client =
    if engine == "mongodb"
    then (elim client.set_name [
      | none ↦ raised
      | some set ↦ named (if set then "replica_set" else "standalone")
    ])
    else if engine == "documentdb"
    then (elim client.set_name [ none ↦ raised | some _ ↦ named "standalone" ])
    else if engine == "amazon-documentdb"
    then (elim client.set_name [ none ↦ raised | some _ ↦ named "replica_set" ])
    else raised

abbrev pub localhost_hosts : List String
localhost_hosts = "localhost" ∷ "127.0.0.1" ∷ "::1" ∷ "0.0.0.0" ∷ []

unfoldable pub is_remote : String → Bool
is_remote host = not (contains localhost_hosts host)

unfoldable pub find_profile : Profile → List (Profile × List String) → Option (List String)
find_profile p [] = none
find_profile (e, t) (((engine, topology), names) ∷ table) =
    if e == engine && t == topology then some names else find_profile (e, t) table

-- `set.discard`
unfoldable pub discard : String → List String → List String
discard name names = select (λ n. not (n == name)) names

pub data Detected : Type 0 where
  capabilities : List String → Detected
  error : Error → Detected

abbrev pub resolve : Profile → Bool → Option (List String) → Detected
resolve profile remote none = error (no_mapping profile)
resolve profile remote (some names) =
    capabilities (if remote then names else discard "remote_target" names)

abbrev pub probe : List (Profile × List String) → String → Topology → Option String → Detected
probe table engine raised host = capabilities []
probe table engine (named topology) none = capabilities []
probe table engine (named topology) (some host) =
    resolve (engine, topology) (is_remote host) (find_profile (engine, topology) table)

-- `detect_capabilities`; `none` for a client that could not be made.
unfoldable pub detect_capabilities :
    List (Profile × List String) → String → Option Client → Detected
detect_capabilities table engine none = capabilities []
detect_capabilities table engine (some client) =
    probe table engine (detect_topology engine client) client.seen_host

pub data Unmet : Type 0 where
  unmet : Dict String Bool → Unmet
  error : Error → Unmet

abbrev pub satisfied : List String → String × Bool → Bool
satisfied present (name, true) = contains present name
satisfied present (name, false) = not (contains present name)

-- `unmet_requirements`, with the known capabilities as its first argument.
unfoldable pub unmet_requirements : List String → Dict String Bool → List String → Unmet
unmet_requirements known required present = elim (without (keys required) known) [
  | [] ↦ unmet (select (λ r. not (satisfied present r)) required)
  | n ∷ ns ↦ Unmet.error (unknown_capabilities (n ∷ ns))
]
