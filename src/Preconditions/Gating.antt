-- ===== src/Preconditions/Gating.antt =====
-- When a requirement is met, and what the tables guarantee.
use functional_tests.Base.{
  String, ◌≡◌, refl, sym, subst, ◌≢◌, ◌↔◌, Bool, true, false, not, Option, none, some, List, [],
  ◌∷◌, arith, contains, string_eq, all, select, if◌then◌else◌,
}
use mathlib.Core.List.{Memᴰ}
use mathlib.Core.List.Memᴰ.{head, tail, not-nil}
use functional_tests.Base.Dict.{Dict, keys}
use functional_tests.Preconditions.{
  without, unmet, satisfied, unmet_requirements, discard, Profile, mapped, check_consistency,
  capabilities_by_profile, Client, Topology, named, raised, capabilities, detect_topology,
  find_profile, detect_capabilities, is_remote, probe, resolve,
}

select_none :
    {A : Type 0} (p : A → Bool) (xs : List A)
    → (select (λ x. not (p x)) xs ≡ []) ↔ (all p xs ≡ true)
select_none p [] = (λ _. refl, λ _. refl)
select_none p (x ∷ xs) = ground (arith, select_none p xs)

-- A requirement is met: its name is known, and is present or absent as is required.
abbrev pub IsMet : List String → List String → String → Bool → Type 0
IsMet known present name wanted = (contains known name ≡ true) × (contains present name ≡ wanted)

satisfied_iff :
    (present : List String) (name : String) (wanted : Bool)
    → (satisfied present (name, wanted) ≡ true) ↔ (contains present name ≡ wanted)
satisfied_iff present name true = ground arith
satisfied_iff present name false = ground arith

all-IsMet :
    (known present : List String) (required : Dict String Bool)
    → all (contains known) (keys required) ≡ true
    → all (satisfied present) required ≡ true
    → (name : String) (wanted : Bool) → Memᴰ (name, wanted) required
    → IsMet known present name wanted
all-IsMet known present [] k s name wanted m = absurd (not-nil m)
all-IsMet known present ((n, w) ∷ required) k s name wanted (head e) =
    subst (λ r. IsMet known present r.0 r.1) (sym e)
      (ground arith, (satisfied_iff present n w).0 (ground arith))
all-IsMet known present ((n, w) ∷ required) k s name wanted (tail m) =
    all-IsMet known present required (ground arith) (ground arith) name wanted m

IsMet-all :
    (known present : List String) (required : Dict String Bool)
    → ((name : String) (wanted : Bool)
        → Memᴰ (name, wanted) required
        → IsMet known present name wanted)
    → (all (contains known) (keys required) ≡ true) × (all (satisfied present) required ≡ true)
IsMet-all known present [] h = (refl, refl)
IsMet-all known present ((n, w) ∷ required) h =
    let (found, as_wanted) = h n w (head refl) in
    let (k, s) = IsMet-all known present required (λ name wanted m. h name wanted (tail m)) in
    let here = (satisfied_iff present n w).1 as_wanted in
    (ground (arith, found, k), ground (arith, here, s))

-- No requirement is reported as unmet, and none as unknown, exactly if every capability that is
-- required by a name is a known one, and is among the present ones if it is required with `True`
-- and is not among them if it is required with `False`.
pub unmet_requirements_none :
    (known : List String) (required : Dict String Bool) (present : List String)
    → (unmet_requirements known required present ≡ unmet []) ↔ (
        (name : String) (wanted : Bool)
        → Memᴰ (name, wanted) required
        → (contains known name ≡ true) × (contains present name ≡ wanted))
unfolding unmet_requirements without
unmet_requirements_none known required present =
    let filtered : (unmet_requirements known required present ≡ unmet []) ↔ (
        (all (contains known) (keys required) ≡ true) × (all (satisfied present) required ≡ true)) =
      ground (
        arith,
        select_none (contains known) (keys required),
        select_none (satisfied present) required,
      ) in
    (
      λ e. let (k, s) = filtered.0 e in all-IsMet known present required k s,
      λ h. filtered.1 (IsMet-all known present required h),
    )

-- The tables are accepted exactly if every capability of a profile is described and every
-- described capability is had by some profile.
check_consistency-none :
    (described : List String) (table : List (Profile × List String))
    → (check_consistency described table ≡ none) ↔ (
        (all (contains described) (mapped table) ≡ true)
        × (all (contains (mapped table)) described ≡ true))
unfolding check_consistency without
check_consistency-none described table = ground (
  arith,
  select_none (contains described) (mapped table),
  select_none (contains (mapped table)) described,
)

profile_known :
    (engine topology : String) (client : Client)
    → detect_topology engine client ≡ named topology
    → find_profile (engine, topology) capabilities_by_profile ≢ none
unfolding detect_topology find_profile capabilities_by_profile
profile_known engine topology client h = ground arith

resolve-total :
    (p : Profile) (remote : Bool) (o : Option (List String))
    → o ≢ none
    → (names : List String) × (resolve p remote o ≡ capabilities names)
resolve-total p remote none h = absurd (h refl)
resolve-total p remote (some names) h =
    ((if remote then names else discard "remote_target" names), refl)

probe-total :
    (engine : String) (client : Client) (t : Topology) (host : Option String)
    → detect_topology engine client ≡ t
    → (names : List String) × (probe capabilities_by_profile engine t host ≡ capabilities names)
probe-total engine client raised host h = ([], refl)
probe-total engine client (named topology) none h = ([], refl)
probe-total engine client (named topology) (some host) h =
    resolve-total (engine, topology) (is_remote host) _ (profile_known engine topology client h)

-- Whatever the engine and the answers of the server, the table has the profile that is detected:
-- the missing mapping that `detect_capabilities` guards against never arises.
detect_capabilities-total :
    (engine : String) (client : Option Client)
    → (names : List String) × (detect_capabilities capabilities_by_profile engine client
        ≡ capabilities names)
unfolding detect_capabilities
detect_capabilities-total engine none = ([], refl)
detect_capabilities-total engine (some client) =
    probe-total engine client (detect_topology engine client) client.seen_host refl

contains-discard :
    (name : String) (names : List String) → contains (discard name names) name ≡ false
unfolding discard
contains-discard name [] = refl
contains-discard name (n ∷ names) = ground (arith, contains-discard name names)

resolve-remote :
    (p : Profile) (remote : Bool) (o : Option (List String)) (names : List String)
    → resolve p remote o ≡ capabilities names
    → contains names "remote_target" ≡ true
    → remote ≡ true
resolve-remote p remote none names h m = cc
resolve-remote p true (some all_names) names h m = refl
resolve-remote p false (some all_names) names h m =
    ground (arith, contains-discard "remote_target" all_names)

probe-remote :
    (table : List (Profile × List String)) (engine : String) (t : Topology) (host : Option String)
    (names : List String)
    → probe table engine t host ≡ capabilities names
    → contains names "remote_target" ≡ true
    → (h : String) × (host ≡ some h) × (is_remote h ≡ true)
probe-remote table engine raised host names h m = cc
probe-remote table engine (named topology) none names h m = cc
probe-remote table engine (named topology) (some host) names h m =
    (host, refl, resolve-remote (engine, topology) (is_remote host) _ names h m)

-- A target has the capability `remote_target` only if the server says that it sees the connection
-- come from a host that is no name of the local one.
detect_capabilities_remote :
    (table : List (Profile × List String)) (engine : String) (client : Client) (names : List String)
    → detect_capabilities table engine (some client) ≡ capabilities names
    → contains names "remote_target" ≡ true
    → (h : String) × (client.seen_host ≡ some h) × (is_remote h ≡ true)
unfolding detect_capabilities
detect_capabilities_remote table engine client names h m =
    probe-remote table engine (detect_topology engine client) client.seen_host names h m
