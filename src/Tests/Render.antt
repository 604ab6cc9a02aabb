-- ===== src/Tests/Render.antt =====
-- A cell with a pipe and a traceback with a fence of its own.
use functional_tests.Base.{◌≤◌, ◌≡◌, refl, false, length, nat_eq}
use functional_tests.Base.Text.{Text, codes, has_substring}
use functional_tests.Render.{backticks, fence, run_lengths, maximum}
use functional_tests.Render.Fences.{fence_lem}

abbrev traceback : Text
traceback = codes "got ```` here"

five_backticks : fence traceback ≡ backticks 5
unfolding fence run_lengths maximum nat_eq
five_backticks = refl

fence_lem_example :
    (3 ≤ length (fence traceback)) × (has_substring (fence traceback) traceback ≡ false)
fence_lem_example = fence_lem traceback
