-- ===== src/Registry/Initiate/Outcomes.antt =====
-- How `ensure_initiated` ends (framework/engine_registry.py).
use functional_tests.Base.{
  ℕ, zero, suc, ◌+◌, ◌≤◌, ◌<◌, ◌≡◌, ◌≢◌, Bool, true, false, [], ◌∷◌, nat_eq, arith,
}
use functional_tests.Registry.Initiate.{
  repl_set_get_status, repl_set_initiate, hello, Outcome, returned, operation_failure, other_error,
  timeout_error, out_of_fuel, History, Server, ensure_search_user, wait_for_primary, initiate,
  after_status, get_status, ensure_initiated,
}

-- The outcome of a run.
abbrev pub outcome : History × Outcome → Outcome
outcome r = r.1

-- The program gave up or ended: the model did not run out of fuel.
unfoldable ended : Outcome → Bool
ended out_of_fuel = false
ended _ = true

ensure_search_user-ended :
    (server : Server) (h : History) → ended (outcome (ensure_search_user server h)) ≡ true
unfolding ended ensure_search_user
ensure_search_user-ended server h = ground arith

wait_for_primary-ended :
    (server : Server) (clock : ℕ → ℕ) (deadline k n : ℕ) (h : History)
    → ((i : ℕ) → clock i < clock (suc i))
    → deadline ≤ clock n + k
    → ended (outcome (wait_for_primary server clock deadline (suc k) n h)) ≡ true
unfolding ended wait_for_primary
wait_for_primary-ended server clock deadline zero n h advances late = ground arith
wait_for_primary-ended server clock deadline (suc k) n h advances late = ground (
  arith,
  wait_for_primary-ended server clock deadline k (suc n) (hello ∷ h) advances
      (omega (arith, advances n)),
  ensure_search_user-ended server (hello ∷ h),
)

initiate-ended :
    (server : Server) (clock : ℕ → ℕ) (timeout : ℕ) (h : History)
    → ((i : ℕ) → clock i < clock (suc i))
    → ended (outcome (initiate server clock timeout (suc timeout) h)) ≡ true
unfolding ended initiate
initiate-ended server clock timeout h advances = ground (
  arith,
  wait_for_primary-ended server clock (clock 0 + timeout) timeout 1 (repl_set_initiate ∷ h) advances
      (omega (arith, advances 0)),
)

get_status-ended : (server : Server) (h : History) → ended (outcome (get_status server h)) ≡ true
unfolding ended get_status
get_status-ended server h =
    ground (arith, ensure_search_user-ended server (repl_set_get_status ∷ h))

after_status-ended :
    (server : Server) (clock : ℕ → ℕ) (timeout : ℕ) (r : History × Outcome)
    → ((i : ℕ) → clock i < clock (suc i))
    → ended (outcome r) ≡ true
    → ended (outcome (after_status server clock timeout (suc timeout) r)) ≡ true
unfolding ended after_status
after_status-ended server clock timeout (h, operation_failure code) advances e =
    ground (arith, initiate-ended server clock timeout h advances)
after_status-ended server clock timeout (h, returned) advances e = e
after_status-ended server clock timeout (h, other_error) advances e = e
after_status-ended server clock timeout (h, timeout_error) advances e = e
after_status-ended server clock timeout (h, out_of_fuel) advances e = e

-- With a clock that goes on by a unit at least between two readings, as the loop sleeps there,
-- `ensure_initiated` ends: as many polls as its timeout has units, and one, are enough.
pub ensure_initiated-ended :
    (server : Server) (clock : ℕ → ℕ) (timeout : ℕ)
    → ((i : ℕ) → clock i < clock (suc i))
    → outcome (ensure_initiated server clock timeout (suc timeout)) ≢ out_of_fuel
unfolding ensure_initiated ended
ensure_initiated-ended server clock timeout advances same = ground (
  arith,
  same,
  after_status-ended server clock timeout (get_status server []) advances
      (get_status-ended server []),
)
