-- ===== src/Executor/Retry.antt =====
-- What a retried command ends with (`execute_admin_with_retry_command` of framework/executor.py).
use functional_tests.Base.{
  ℕ, zero, suc, ◌+◌, ◌≤◌, ◌<◌, ◌≡◌, refl, ap, ◌∙◌, true, false, some, add_zero, zero_add, suc_add,
  lt_or_le, Bool-cases, ◌⊎◌, inl, inr, arith,
}
use functional_tests.Payload.Lazy.{Payload, materialize}
use functional_tests.Executor.{Answer, should_retry, retry, execute_admin_with_retry_command}

module _ {A : Type 0} {R : Type 0} where
  -- The call after a number of calls that were all retried within the deadline is not to be retried
  -- or ends after the deadline.
  pub LastOf : (ℕ → Payload A → Answer R) → (ℕ → ℕ) → Payload A → ℕ → ℕ → ℕ → ℕ → Type 0
  LastOf run clock command retry_code deadline zero n =
      (should_retry (run n ((materialize command).0)) retry_code ≡ false)
      ⊎ (deadline ≤ clock (suc n))
  LastOf run clock command retry_code deadline (suc k) n =
      (should_retry (run n ((materialize command).0)) retry_code ≡ true)
      × (clock (suc n) < deadline)
      × LastOf run clock command retry_code deadline k (suc n)

  retries_or_not :
      (run : ℕ → Payload A → Answer R) (clock : ℕ → ℕ) (command : Payload A)
      (retry_code deadline n : ℕ)
      → LastOf run clock command retry_code deadline 0 n
        ⊎ ((should_retry (run n ((materialize command).0)) retry_code ≡ true)
            × (clock (suc n) < deadline))
  unfolding LastOf
  retries_or_not run clock command retry_code deadline n =
      elim (Bool-cases (should_retry (run n ((materialize command).0)) retry_code)) [
        | inr not_again ↦ inl (inl not_again)
        | inl again ↦ elim (lt_or_le (clock (suc n)) deadline) [
          | inl early ↦ inr (again, early)
          | inr late ↦ inl (inr late)
        ]
      ]

  retry-stops :
      (run : ℕ → Payload A → Answer R) (clock : ℕ → ℕ) (command : Payload A)
      (retry_code deadline fuel n : ℕ)
      → LastOf run clock command retry_code deadline 0 n
      → retry run clock command retry_code deadline (suc fuel) n
        ≡ some (run (n + 0) ((materialize command).0))
  unfolding LastOf retry
  retry-stops run clock command retry_code deadline fuel n (inl not_again) =
      rw (not_again, add_zero n) refl
  retry-stops run clock command retry_code deadline fuel n (inr late) =
      ground (arith, late, add_zero n)

  retry-again :
      (run : ℕ → Payload A → Answer R) (clock : ℕ → ℕ) (command : Payload A)
      (retry_code deadline fuel n : ℕ)
      → should_retry (run n ((materialize command).0)) retry_code ≡ true
      → clock (suc n) < deadline
      → retry run clock command retry_code deadline (suc fuel) n
        ≡ retry run clock command retry_code deadline fuel (suc n)
  unfolding retry
  retry-again run clock command retry_code deadline fuel n again early =
      ground (arith, again, early)

  retry_lem :
      (run : ℕ → Payload A → Answer R) (clock : ℕ → ℕ) (command : Payload A)
      (retry_code deadline fuel n : ℕ)
      → ((i : ℕ) → clock i < clock (suc i))
      → deadline ≤ clock n + fuel
      → (k : ℕ) × LastOf run clock command retry_code deadline k n
        × (retry run clock command retry_code deadline (suc fuel) n
            ≡ some (run (n + k) ((materialize command).0)))
  unfolding LastOf
  retry_lem run clock command retry_code deadline zero n advances late =
      let past = inr (omega (arith, advances n)) in
      (0, past, retry-stops run clock command retry_code deadline 0 n past)
  retry_lem run clock command retry_code deadline (suc fuel) n advances late =
      let (k, last, e) =
        retry_lem run clock command retry_code deadline fuel (suc n) advances
          (omega (arith, advances n)) in
      elim (retries_or_not run clock command retry_code deadline n) [
        | inl stops ↦
            (0, stops, retry-stops run clock command retry_code deadline (suc fuel) n stops)
        | inr (again, early) ↦ (
          suc k,
          (again, early, last),
          retry-again run clock command retry_code deadline (suc fuel) n again early
              ∙ e
              ∙ ap (λ i. some (run i ((materialize command).0))) (suc_add n k),
        )
      ]

  -- With a clock that goes on by a unit at least between two readings, the loop ends, and its
  -- result is that of a call, the first one that is not to be retried or that ends after the
  -- deadline; a fuel of the timeout's units and one is enough.
  pub execute_admin_with_retry_command_lem :
      (run : ℕ → Payload A → Answer R) (clock : ℕ → ℕ) (command : Payload A)
      (retry_code timeout : ℕ)
      → ((i : ℕ) → clock i < clock (suc i))
      → (k : ℕ) × LastOf run clock command retry_code (clock 0 + timeout) k 0
        × (execute_admin_with_retry_command run clock command retry_code timeout (suc timeout)
            ≡ some (run k ((materialize command).0)))
  unfolding execute_admin_with_retry_command
  execute_admin_with_retry_command_lem run clock command retry_code timeout advances =
      let (k, last, e) =
        retry_lem run clock command retry_code (clock 0 + timeout) timeout 0 advances
          (omega arith) in
      (k, last, e ∙ ap (λ i. some (run i ((materialize command).0))) (zero_add k))
