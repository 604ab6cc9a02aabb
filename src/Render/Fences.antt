-- ===== src/Render/Fences.antt =====
-- Fences and the texts that they enclose (`_fenced_block` of render_markdown.py).
use Prim.Native.Nat.{max}
use functional_tests.Base.{
  ℕ, zero, suc, ◌+◌, ◌≤◌, ◌<◌, ◌≡◌, refl, true, false, List, [], ◌∷◌, arith, ◌==◌, nat_eq, length,
  inl, inr, Bool-cases, if◌then◌else◌,
}
use functional_tests.Base.Text.{Text, starts_with, has_substring}
use functional_tests.Render.{run_lengths, flush, maximum, backticks, fence}

-- The number of backticks at the head of a text.
lead : Text → ℕ
lead [] = 0
lead (c ∷ s) = let more = lead s in if c == b'`' then more + 1 else 0

longest : ℕ → Text → ℕ
longest n s = maximum (run_lengths n s)

maximum-flush : (n : ℕ) (ns : List ℕ) → maximum (flush n ns) ≡ max n (maximum ns)
unfolding maximum
maximum-flush zero ns = omega arith
maximum-flush (suc n) ns = omega arith

longest-lead : (n : ℕ) (s : Text) → n + lead s ≤ longest n s
unfolding lead longest run_lengths
longest-lead n [] = omega (arith, maximum-flush n [])
longest-lead n (c ∷ s) = ground (arith, longest-lead (n + 1) s, maximum-flush n (run_lengths 0 s))

longest-monotone : (m n : ℕ) (s : Text) → m ≤ n → longest m s ≤ longest n s
unfolding longest run_lengths
longest-monotone m n [] h = omega (arith, maximum-flush m [], maximum-flush n [])
longest-monotone m n (c ∷ s) h = ground (
  arith,
  longest-monotone (m + 1) (n + 1) s,
  maximum-flush m (run_lengths 0 s),
  maximum-flush n (run_lengths 0 s),
)

longest-tail : (n c : ℕ) (s : Text) → longest 0 s ≤ longest n (c ∷ s)
unfolding longest run_lengths
longest-tail n c s = ground (arith, longest-monotone 0 (n + 1) s, maximum-flush n (run_lengths 0 s))

starts-lead : (k : ℕ) (s : Text) → starts_with s (backticks k) ≡ true → k ≤ lead s
unfolding lead
starts-lead zero s h = omega arith
starts-lead (suc k) [] h = cc
starts-lead (suc k) (c ∷ s) h = ground (arith, starts-lead k s)

no_start : (k : ℕ) (s : Text) → lead s < k → starts_with s (backticks k) ≡ false
no_start k s h = elim (Bool-cases (starts_with s (backticks k))) [
  | inl e ↦ absurd (omega (arith, starts-lead k s e))
  | inr e ↦ e
]

no_longer_run : (k n : ℕ) (s : Text) → longest n s < k → has_substring (backticks k) s ≡ false
unfolding has_substring
no_longer_run k n [] h = no_start k [] (omega (arith, longest-lead n []))
no_longer_run k n (c ∷ s) h =
    rw (no_start k (c ∷ s) (omega (arith, longest-lead n (c ∷ s))))
      (no_longer_run k 0 s (omega (arith, longest-tail n c s)))

length-backticks : (k : ℕ) → length (backticks k) ≡ k
length-backticks zero = refl
length-backticks (suc k) = omega (arith, length-backticks k)

-- A fence has at least three characters and does not occur in the text that it encloses.
pub fence_lem :
    (text : Text) → (3 ≤ length (fence text)) × (has_substring (fence text) text ≡ false)
unfolding fence longest
fence_lem text =
    let k = max 3 (longest 0 text + 1) in
    (omega (arith, length-backticks k), no_longer_run k 0 text (omega arith))
