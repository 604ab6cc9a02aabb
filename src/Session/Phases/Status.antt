-- ===== src/Session/Phases/Status.antt =====
-- When a run of two phases succeeds (`pytest_sessionfinish` of conftest.py).
use functional_tests.Base.{ℕ, ◌≡◌, ◌⊎◌, ◌↔◌, true, arith, nat_eq}
use functional_tests.Session.Phases.{Config, is_xdist_controller, session_finish}

-- A session that begins the hook with the exit status of its first phase ends with status 0 exactly
-- if the first phase did and, on the controller of a parallel run, the second phase succeeded or
-- found no tests.
session_finish_zero :
    (c : Config) (exitstatus result : ℕ)
    → (session_finish c exitstatus exitstatus result ≡ 0)
      ↔ ((exitstatus ≡ 0) × (is_xdist_controller c ≡ true → (result ≡ 0) ⊎ (result ≡ 5)))
unfolding session_finish
session_finish_zero c exitstatus result = ground arith
