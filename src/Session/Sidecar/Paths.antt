-- ===== src/Session/Sidecar/Paths.antt =====
-- The temporary files of the processes are distinct files, and none is the sidecar.
use functional_tests.Base.{ℕ, ◌≡◌, ◌≢◌, ap, ◌∷◌, ◌++◌, length, length-append, arith}
use functional_tests.Base.Text.{Text, codes}
use functional_tests.Session.Sidecar.{temp_path}
use mathlib.Core.List.{append_cancel_left, append_cancel_right}

append-longer : (s t : Text) (c : ℕ) → s ≢ s ++ c ∷ t
append-longer s t c p = absurd (omega (arith, length-append s (c ∷ t), ap length p))

module _ (str : ℕ → Text) (sidecar : Text) where
  pub temp_path_apart : (i : ℕ) → sidecar ≢ temp_path str sidecar i
  temp_path_apart i = append-longer sidecar (str i ++ codes ".tmp") b'.'

  pub temp_path_injective :
      ((i j : ℕ) → str i ≡ str j → i ≡ j)
      → (i j : ℕ) → temp_path str sidecar i ≡ temp_path str sidecar j
      → i ≡ j
  temp_path_injective injective i j p = injective i j (
      append_cancel_right (str i) (str j) (codes ".tmp") (
        append_cancel_left (codes ".") (str i ++ codes ".tmp") (str j ++ codes ".tmp") (
          append_cancel_left sidecar (codes "." ++ (str i ++ codes ".tmp"))
            (codes "." ++ (str j ++ codes ".tmp")) p)))
