-- ===== src/Registry/Initiate/Once.antt =====
-- When `replSetInitiate` is sent (framework/engine_registry.py).
use functional_tests.Base.{
  ℕ, zero, suc, ◌+◌, ◌≡◌, refl, Bool, true, false, [], ◌∷◌, count, arith, if◌then◌else◌,
}
use functional_tests.Registry.Initiate.{
  Command, repl_set_get_status, repl_set_initiate, hello, Outcome, returned, operation_failure,
  other_error, timeout_error, out_of_fuel, History, Server, not_yet_initialized, has_code,
  ensure_search_user, wait_for_primary, initiate, after_status, get_status, ensure_initiated,
}

abbrev is_initiate : Command → Bool
is_initiate repl_set_initiate = true
is_initiate _ = false

-- How often `replSetInitiate` was sent.
abbrev pub initiations : History → ℕ
initiations h = count is_initiate h

-- An outcome of the first `try` for which the code initiates the set.
unfoldable pub is_uninitiated : Outcome → Bool
is_uninitiated (operation_failure code) = has_code code not_yet_initialized
is_uninitiated _ = false

ensure_search_user-initiations :
    (server : Server) (h : History) → initiations ((ensure_search_user server h).0) ≡ initiations h
unfolding ensure_search_user
ensure_search_user-initiations server h = ground arith

wait_for_primary-initiations :
    (server : Server) (clock : ℕ → ℕ) (deadline fuel n : ℕ) (h : History)
    → initiations ((wait_for_primary server clock deadline fuel n h).0) ≡ initiations h
unfolding wait_for_primary
wait_for_primary-initiations server clock deadline zero n h = refl
wait_for_primary-initiations server clock deadline (suc fuel) n h = ground (
  arith,
  ensure_search_user-initiations server (hello ∷ h),
  wait_for_primary-initiations server clock deadline fuel (suc n) (hello ∷ h),
)

after_status-initiations :
    (server : Server) (clock : ℕ → ℕ) (timeout fuel : ℕ) (r : History × Outcome)
    → initiations ((after_status server clock timeout fuel r).0)
      ≡ initiations (r.0) + (if is_uninitiated (r.1) then 1 else 0)
unfolding after_status is_uninitiated initiate
after_status-initiations server clock timeout fuel (h, operation_failure code) = ground (
  arith,
  wait_for_primary-initiations server clock (clock 0 + timeout) fuel 1 (repl_set_initiate ∷ h),
)
after_status-initiations server clock timeout fuel (h, returned) = omega arith
after_status-initiations server clock timeout fuel (h, other_error) = omega arith
after_status-initiations server clock timeout fuel (h, timeout_error) = omega arith
after_status-initiations server clock timeout fuel (h, out_of_fuel) = omega arith

get_status-initiations :
    (server : Server) (h : History) → initiations ((get_status server h).0) ≡ initiations h
unfolding get_status
get_status-initiations server h =
    ground (arith, ensure_search_user-initiations server (repl_set_get_status ∷ h))

-- `ensure_initiated` sends `replSetInitiate` once when its first `try` fails with
-- `NotYetInitialized`, and never else.
pub ensure_initiated-initiations :
    (server : Server) (clock : ℕ → ℕ) (timeout fuel : ℕ)
    → initiations ((ensure_initiated server clock timeout fuel).0)
      ≡ (if is_uninitiated ((get_status server []).1) then 1 else 0)
unfolding ensure_initiated
ensure_initiated-initiations server clock timeout fuel = omega (
  arith,
  after_status-initiations server clock timeout fuel (get_status server []),
  get_status-initiations server [],
)
