-- ===== src/Executor.antt =====
-- Commands and their retries (framework/executor.py). The driver is a function from the number of
-- earlier calls and the command that is sent to its answer; the clock is the readings that
-- `time.monotonic()` gives, by their number.
pub mod Retry
use functional_tests.Base.{
  ℕ, zero, suc, ◌+◌, Bool, true, false, Option, none, some, leb, ◌==◌, nat_eq, not, ◌||◌,
  if◌then◌else◌,
}
use functional_tests.Payload.Lazy.{Payload, materialize}

-- A result, or the exception that is returned in its place, with its `code` if it has one.
pub data Answer (R : Type 0) : Type 0 where
  success : R → Answer R
  error : Option ℕ → Answer R

unfoldable pub should_retry : {R : Type 0} → Answer R → ℕ → Bool
unfolding nat_eq
should_retry (success _) retry_code = false
should_retry (error none) retry_code = false
should_retry (error (some code)) retry_code = code == retry_code

module _ {A : Type 0} {R : Type 0} where
  -- The command is run on the database of the collection, or on `admin`.
  abbrev pub execute_command : (Payload A → Answer R) → Payload A → Answer R
  execute_command run command = run ((materialize command).0)

  abbrev pub execute_admin_command : (Payload A → Answer R) → Payload A → Answer R
  execute_admin_command run command = run ((materialize command).0)

  -- The loop: `n` calls and readings after the deadline was set came before. `none` is the end of
  -- the fuel.
  unfoldable pub retry :
      (ℕ → Payload A → Answer R) → (ℕ → ℕ) → Payload A → ℕ → ℕ → ℕ → ℕ → Option (Answer R)
  unfolding should_retry
  retry run clock command retry_code deadline zero n = none
  retry run clock command retry_code deadline (suc fuel) n =
      let result = execute_admin_command (run n) command in
      let rest = retry run clock command retry_code deadline fuel (suc n) in
      if not (should_retry result retry_code) || leb deadline (clock (suc n))
      then some result
      else rest

  unfoldable pub execute_admin_with_retry_command :
      (ℕ → Payload A → Answer R) → (ℕ → ℕ) → Payload A → ℕ → ℕ → ℕ → Option (Answer R)
  unfolding retry
  execute_admin_with_retry_command run clock command retry_code timeout fuel =
      retry run clock command retry_code (clock 0 + timeout) fuel 0
