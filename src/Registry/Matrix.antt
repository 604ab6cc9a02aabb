-- ===== src/Registry/Matrix.antt =====
-- The rows of the CI matrix (framework/ci_matrix.py).
use functional_tests.Base.{
  String, ◌≡◌, refl, Option, none, some, List, [], ◌∷◌, map, string_eq, ◌≢◌, arith,
}
use functional_tests.Base.Dict.{Dict, lookup}
use functional_tests.Registry.{
  Service, Target, Entry, target_of, also, load_targets, profile_for, entry, all_entries,
  build_matrix,
}

abbrev pub target_of_entry : Entry → Target
target_of_entry e = record {
  name = e.name;
  engine = e.engine;
  connection_string = e.connection_string;
}

-- Every name of a list is a service of the file.
Declared : Dict String Service → List Target → Type 0
Declared services [] = Unit
Declared services (t ∷ ts) = (lookup (t.name) services ≢ none) × Declared services ts

Declared-more :
    (name : String) (service : Service) (services : Dict String Service) (ts : List Target)
    → Declared services ts
    → Declared ((name, service) ∷ services) ts
unfolding Declared
Declared-more name service services [] _ = tt
Declared-more name service services (t ∷ ts) (h, hs) =
    (ground (arith), Declared-more name service services ts hs)

Declared-also :
    (name : String) (service : Service) (services : Dict String Service) (o : Option Target)
    (ts : List Target)
    → ((t : Target) → o ≡ some t → t.name ≡ name)
    → Declared services ts
    → Declared ((name, service) ∷ services) (also o ts)
unfolding Declared
Declared-also name service services none ts named hs = Declared-more name service services ts hs
Declared-also name service services (some t) ts named hs =
    (ground (arith, named t refl), Declared-more name service services ts hs)

name-target_of :
    (name : String) (service : Service) (t : Target)
    → target_of name service ≡ some t
    → t.name ≡ name
unfolding target_of
name-target_of name service t e = ground (arith, e)

Declared-load_targets : (services : Dict String Service) → Declared services (load_targets services)
unfolding Declared load_targets
Declared-load_targets [] = tt
Declared-load_targets ((name, service) ∷ services) =
    Declared-also name service services (target_of name service) (load_targets services)
      (name-target_of name service) (Declared-load_targets services)

profile_for_found :
    (name : String) (services : Dict String Service)
    → lookup name services ≢ none
    → (profile : String) × (profile_for name services ≡ some profile)
unfolding profile_for
profile_for_found name services h = go (lookup name services) h
  where
    go :
        (found : Option Service)
        → found ≢ none
        → (profile : String) × (elim found [
          | none ↦ none
          | some service ↦ elim (service.profiles) [ [] ↦ some name | p ∷ _ ↦ some p ]
        ]
            ≡ some profile)
    go none missing = absurd (missing refl)
    go (some service) _ =
        elim (service.profiles)
          as (λ ps.
            (profile : String) × (elim ps [ [] ↦ some name | p ∷ _ ↦ some p ] ≡ some profile)) [
              | [] ↦ (name, refl)
              | p ∷ _ ↦ (p, refl)
            ]

all_entries_lem :
    (services : Dict String Service) (ts : List Target)
    → Declared services ts
    → (es : List Entry) × (all_entries (map (λ t. entry t (profile_for (t.name) services)) ts)
        ≡ some es)
      × (map target_of_entry es ≡ ts)
unfolding Declared all_entries entry
all_entries_lem services [] _ = ([], refl, refl)
all_entries_lem services (t ∷ ts) (h, hs) =
    let (es, found, same) = all_entries_lem services ts hs in
    let (profile, e) = profile_for_found (t.name) services h in
    (
      record {
        name = t.name;
        profile = profile;
        connection_string = t.connection_string;
        engine = t.engine;
      }
          ∷ es,
      rw (e, found) refl,
      rw same refl,
    )

-- The matrix is built for every compose file, no name is missing, and its rows are the targets of
-- the file in their order, each with a profile.
build_matrix_lem :
    (services : Dict String Service)
    → (es : List Entry) × (build_matrix services ≡ some es)
      × (map target_of_entry es ≡ load_targets services)
unfolding build_matrix
build_matrix_lem services =
    all_entries_lem services (load_targets services) (Declared-load_targets services)
