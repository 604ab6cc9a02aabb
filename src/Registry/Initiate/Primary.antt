-- ===== src/Registry/Initiate/Primary.antt =====
-- The primary that `ensure_initiated` waits for, and its timeout (framework/engine_registry.py).
use functional_tests.Base.{
  ℕ, zero, suc, ◌+◌, ◌≤◌, ◌<◌, ◌≡◌, ◌≢◌, sym, ap, ◌∙◌, true, false, some, [], ◌∷◌, nat_eq, arith,
  suc_add, lt_or_le, ◌⊎◌, inl, inr,
}
use functional_tests.Registry.Initiate.{
  repl_set_get_status, repl_set_initiate, hello, close, answered, failed, Outcome, returned,
  operation_failure, other_error, timeout_error, out_of_fuel, History, Server, not_yet_initialized,
  already_initialized, has_code, ensure_search_user, wait_for_primary, initiate, after_status,
  get_status, ensure_initiated,
}
use functional_tests.Registry.Initiate.Outcomes.{outcome}

-- What the server has had after a number of polls.
abbrev pub polled : ℕ → History → History
polled zero h = h
polled (suc k) h = polled k (hello ∷ h)

-- The polls up to a number of them come before the deadline and none finds a primary; the reading
-- `n` of the clock is the first.
unfoldable pub Waiting : Server → (ℕ → ℕ) → ℕ → ℕ → ℕ → History → Type 0
Waiting server clock deadline zero n h = Unit
Waiting server clock deadline (suc k) n h =
    (clock n < deadline)
    × (server h hello ≡ answered false)
    × Waiting server clock deadline k (suc n) (hello ∷ h)

-- A poll before the deadline that finds a primary, after a number of polls that do not.
unfoldable pub Elected : Server → (ℕ → ℕ) → ℕ → ℕ → ℕ → History → Type 0
Elected server clock deadline k n h =
    Waiting server clock deadline k n h
    × (clock (n + k) < deadline)
    × (server (polled k h) hello ≡ answered true)

abbrev pub started : History
started = repl_set_initiate ∷ repl_set_get_status ∷ []

wait_for_primary-Elected :
    (server : Server) (clock : ℕ → ℕ) (deadline k fuel n : ℕ) (h : History)
    → k < fuel
    → Waiting server clock deadline k n h
    → clock (n + k) < deadline
    → server (polled k h) hello ≡ answered true
    → wait_for_primary server clock deadline fuel n h ≡ ensure_search_user server (polled (suc k) h)
unfolding wait_for_primary Waiting
wait_for_primary-Elected server clock deadline k zero n h le w before found = elim le [ ]
wait_for_primary-Elected server clock deadline zero (suc fuel) n h le w before found = ground arith
wait_for_primary-Elected server clock deadline (suc k) (suc fuel) n h le (early, waits, w) before
      found =
    ground (
      arith,
      wait_for_primary-Elected server clock deadline k fuel (suc n) (hello ∷ h) (omega arith) w
          (rw (suc_add n k) before) found,
    )

-- A set that is not initiated, with a server that takes `replSetInitiate` (or has had it from
-- another), finds a primary at a poll before the deadline, after polls before the deadline that
-- find none, and then takes the search user: `ensure_initiated` returns.
pub ensure_initiated-Elected :
    (server : Server) (clock : ℕ → ℕ) (timeout fuel k : ℕ)
    → server [] repl_set_get_status ≡ failed (some not_yet_initialized)
    → (server (repl_set_get_status ∷ []) repl_set_initiate ≡ answered true)
      ⊎ (server (repl_set_get_status ∷ []) repl_set_initiate ≡ failed (some already_initialized))
    → Elected server clock (clock 0 + timeout) k 1 started
    → outcome (ensure_search_user server (polled (suc k) started)) ≡ returned
    → k < fuel
    → ensure_initiated server clock timeout fuel
      ≡ (close ∷ (ensure_search_user server (polled (suc k) started)).0, returned)
unfolding ensure_initiated after_status get_status has_code initiate nat_eq Elected
ensure_initiated-Elected server clock timeout fuel k status sent (w, before, found) user le =
    ground (
      arith,
      status,
      sent,
      user,
      wait_for_primary-Elected server clock (clock 0 + timeout) k fuel 1 started le w before found,
    )

ensure_search_user-timeout :
    (server : Server) (h : History) → outcome (ensure_search_user server h) ≢ timeout_error
unfolding ensure_search_user
ensure_search_user-timeout server h e = ground (arith, e)

-- Within the deadline, a wait that ends in the timeout goes on after a reply.
waits_lem :
    (server : Server) (clock : ℕ → ℕ) (deadline fuel n : ℕ) (h : History)
    → clock n < deadline
    → outcome (wait_for_primary server clock deadline (suc fuel) n h) ≡ timeout_error
    → (server h hello ≡ answered false)
      × (wait_for_primary server clock deadline (suc fuel) n h
          ≡ wait_for_primary server clock deadline fuel (suc n) (hello ∷ h))
unfolding wait_for_primary
waits_lem server clock deadline fuel n h early e = (
  ground (arith, e, ensure_search_user-timeout server (hello ∷ h)),
  ground (arith, e, ensure_search_user-timeout server (hello ∷ h)),
)

-- If the wait ends in its timeout, then after some number of polls before the deadline, none of
-- which found a primary, the clock passed the deadline.
wait_for_primary-timeout :
    (server : Server) (clock : ℕ → ℕ) (deadline fuel n : ℕ) (h : History)
    → outcome (wait_for_primary server clock deadline fuel n h) ≡ timeout_error
    → (k : ℕ) × Waiting server clock deadline k n h
      × (deadline ≤ clock (n + k))
      × ((wait_for_primary server clock deadline fuel n h).0 ≡ polled k h)
unfolding Waiting wait_for_primary
wait_for_primary-timeout server clock deadline zero n h e = ground (arith, e)
wait_for_primary-timeout server clock deadline (suc fuel) n h e =
    elim (lt_or_le (clock n) deadline) [
      | inr late ↦ (0, tt, ground arith, ground arith)
      | inl early ↦
          let (waits, on) = waits_lem server clock deadline fuel n h early e in
          let (k, w, late, same) =
            wait_for_primary-timeout server clock deadline fuel (suc n) (hello ∷ h)
              (sym (ap outcome on) ∙ e) in
          (suc k, (early, waits, w), rw (sym (suc_add n k)) late, ap (λ r. r.0) on ∙ same)
    ]

get_status-timeout : (server : Server) (h : History) → outcome (get_status server h) ≢ timeout_error
unfolding get_status
get_status-timeout server h e =
    ground (arith, e, ensure_search_user-timeout server (repl_set_get_status ∷ h))

-- A timeout comes from the wait.
after_status-timeout :
    (server : Server) (clock : ℕ → ℕ) (timeout fuel : ℕ) (r : History × Outcome)
    → outcome r ≢ timeout_error
    → outcome (after_status server clock timeout fuel r) ≡ timeout_error
    → after_status server clock timeout fuel r
      ≡ wait_for_primary server clock (clock 0 + timeout) fuel 1 (repl_set_initiate ∷ r.0)
unfolding after_status initiate
after_status-timeout server clock timeout fuel (h, operation_failure code) _ e = ground (arith, e)
after_status-timeout server clock timeout fuel (h, returned) differs e = absurd (differs e)
after_status-timeout server clock timeout fuel (h, other_error) differs e = absurd (differs e)
after_status-timeout server clock timeout fuel (h, timeout_error) differs e = absurd (differs e)
after_status-timeout server clock timeout fuel (h, out_of_fuel) differs e = absurd (differs e)

-- `ensure_initiated` raises `TimeoutError` only after the deadline, when every poll before it has
-- found no primary.
pub ensure_initiated-timeout :
    (server : Server) (clock : ℕ → ℕ) (timeout fuel : ℕ)
    → outcome (ensure_initiated server clock timeout fuel) ≡ timeout_error
    → (k : ℕ) × Waiting server clock
        (clock 0 + timeout)
        k
        1
        (repl_set_initiate ∷ (get_status server []).0)
      × (clock 0 + timeout ≤ clock (1 + k))
      × ((ensure_initiated server clock timeout fuel).0
          ≡ close ∷ polled k (repl_set_initiate ∷ (get_status server []).0))
unfolding ensure_initiated
ensure_initiated-timeout server clock timeout fuel e =
    let r = get_status server [] in
    let waited =
      after_status-timeout server clock timeout fuel r (get_status-timeout server []) e in
    let (k, w, late, same) =
      wait_for_primary-timeout server clock (clock 0 + timeout) fuel 1 (repl_set_initiate ∷ r.0)
        (sym (ap outcome waited) ∙ e) in
    (k, w, late, ap (λ h. close ∷ h) (ap (λ t. t.0) waited ∙ same))
