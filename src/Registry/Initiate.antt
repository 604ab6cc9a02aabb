-- ===== src/Registry/Initiate.antt =====
-- `ensure_initiated` of framework/engine_registry.py. The server is a function from the commands
-- it has had, the newest first, to its reply; the clock is the list of readings that
-- `time.monotonic()` will give, as a function from their number.
pub mod Outcomes
pub mod Primary
pub mod Once
use functional_tests.Base.{
  ℕ, zero, suc, ◌+◌, String, Bool, true, false, Option, none, some, List, [], ◌∷◌, ltb, ◌==◌,
  nat_eq, if◌then◌else◌,
}

pub data Command : Type 0 where
  repl_set_get_status repl_set_initiate hello get_mongot_host create_user close : Command

-- A reply's only field that the code reads, `isWritablePrimary` or `mongotHost`, is its truth. A
-- failure is an `OperationFailure` with its code; `broken` is any other exception.
pub data Reply : Type 0 where
  answered : Bool → Reply
  failed : Option ℕ → Reply
  broken : Reply

pub data Outcome : Type 0 where
  returned : Outcome
  operation_failure : Option ℕ → Outcome
  other_error timeout_error out_of_fuel : Outcome

abbrev pub History : Type 0
History = List Command

abbrev pub Server : Type 0
Server = History → Command → Reply

abbrev pub not_yet_initialized : ℕ
not_yet_initialized = 94

abbrev pub already_initialized : ℕ
already_initialized = 23

abbrev pub user_already_exists : ℕ
user_already_exists = 51003

-- `exc.code == code`
unfoldable pub has_code : Option ℕ → ℕ → Bool
has_code none code = false
has_code (some c) code = c == code

unfoldable pub ensure_search_user : Server → History → History × Outcome
unfolding has_code
ensure_search_user server h =
    let asked = get_mongot_host ∷ h in
    elim (server h get_mongot_host) [
      | failed code ↦ (asked, operation_failure code)
      | broken ↦ (asked, other_error)
      | answered false ↦ (asked, returned)
      | answered true ↦ (
        create_user ∷ asked,
        elim (server asked create_user) [
          | answered _ ↦ returned
          | failed code ↦
              if has_code code user_already_exists then returned else operation_failure code
          | broken ↦ other_error
        ],
      )
    ]

-- The loop. The reading `n` of the clock is the next one; the fuel bounds the polls.
unfoldable pub wait_for_primary : Server → (ℕ → ℕ) → ℕ → ℕ → ℕ → History → History × Outcome
unfolding ensure_search_user
wait_for_primary server clock deadline zero n h = (h, out_of_fuel)
wait_for_primary server clock deadline (suc fuel) n h =
    let rest = wait_for_primary server clock deadline fuel (suc n) (hello ∷ h) in
    if ltb (clock n) deadline
    then elim (server h hello) [
      | answered true ↦ ensure_search_user server (hello ∷ h)
      | answered false ↦ rest
      | failed code ↦ (hello ∷ h, operation_failure code)
      | broken ↦ (hello ∷ h, other_error)
    ]
    else (h, timeout_error)

-- From `replSetInitiate` on.
unfoldable pub initiate : Server → (ℕ → ℕ) → ℕ → ℕ → History → History × Outcome
unfolding has_code wait_for_primary
initiate server clock timeout fuel h =
    let sent = repl_set_initiate ∷ h in
    let wait = wait_for_primary server clock (clock 0 + timeout) fuel 1 sent in
    elim (server h repl_set_initiate) [
      | answered _ ↦ wait
      | failed code ↦
          if has_code code already_initialized then wait else (sent, operation_failure code)
      | broken ↦ (sent, other_error)
    ]

-- What the `except OperationFailure` of the first `try` makes of it.
unfoldable pub after_status : Server → (ℕ → ℕ) → ℕ → ℕ → History × Outcome → History × Outcome
unfolding has_code initiate
after_status server clock timeout fuel (h, operation_failure code) =
    if has_code code not_yet_initialized
    then initiate server clock timeout fuel h
    else (h, returned)
after_status server clock timeout fuel (h, o) = (h, o)

-- The first `try`.
unfoldable pub get_status : Server → History → History × Outcome
unfolding ensure_search_user
get_status server h =
    let sent = repl_set_get_status ∷ h in
    elim (server h repl_set_get_status) [
      | answered _ ↦ ensure_search_user server sent
      | failed code ↦ (sent, operation_failure code)
      | broken ↦ (sent, other_error)
    ]

-- `finally: client.close()`
abbrev closed : History × Outcome → History × Outcome
closed (h, o) = (close ∷ h, o)

unfoldable pub ensure_initiated : Server → (ℕ → ℕ) → ℕ → ℕ → History × Outcome
unfolding get_status after_status
ensure_initiated server clock timeout fuel =
    closed (after_status server clock timeout fuel (get_status server []))
