-- ===== src/Render/Cells.antt =====
-- The pipes of a table cell, and how a cell is read back (`_table_cell` of render_markdown.py).
use functional_tests.Base.{
  ℕ, ◌≡◌, refl, Bool, false, ◌&&◌, ◌||◌, not, [], ◌∷◌, arith, ◌==◌, nat_eq, if◌then◌else◌,
}
use functional_tests.Base.Text.{Text}
use functional_tests.Render.{table_cell}

-- Whether a pipe stands without a backslash directly in front of it; `escaped` says that a
-- backslash stands in front of the text.
unfoldable pub has_raw_pipe : Bool → Text → Bool
unfolding nat_eq
has_raw_pipe escaped [] = false
has_raw_pipe escaped (c ∷ s) = c == b'|' && not escaped || has_raw_pipe (c == b'\\') s

-- Drops each backslash in front of a pipe.
unfoldable pub unescape : Text → Text
unfolding nat_eq
unescape [] = []
unescape (c ∷ []) = c ∷ []
unescape (c ∷ d ∷ s) =
    let rest = unescape (d ∷ s) in if c == b'\\' && d == b'|' then rest else c ∷ rest

no_raw_pipe : (escaped : Bool) (s : Text) → has_raw_pipe escaped (table_cell s) ≡ false
unfolding has_raw_pipe table_cell
no_raw_pipe escaped [] = refl
no_raw_pipe escaped (c ∷ s) = ground (arith, no_raw_pipe false s, no_raw_pipe (c == b'\\') s)

unescape-cons : (c : ℕ) (s : Text) → unescape (c ∷ table_cell s) ≡ c ∷ unescape (table_cell s)
unfolding unescape table_cell
unescape-cons c [] = refl
unescape-cons c (d ∷ s) = ground arith

unescape-pipe : (s : Text) → unescape (b'\\' ∷ b'|' ∷ s) ≡ unescape (b'|' ∷ s)
unfolding unescape
unescape-pipe s = refl

unescape-table_cell : (s : Text) → unescape (table_cell s) ≡ s
unfolding table_cell
unescape-table_cell [] = unfold unescape in refl
unescape-table_cell (c ∷ s) = ground (
  arith,
  unescape-pipe (table_cell s),
  unescape-cons b'|' s,
  unescape-cons c s,
  unescape-table_cell s,
)

-- A cell holds no pipe without a backslash in front, and dropping the backslashes in front of its
-- pipes gives the text back.
table_cell_lem :
    (text : Text)
    → (has_raw_pipe false (table_cell text) ≡ false) × (unescape (table_cell text) ≡ text)
table_cell_lem text = (no_raw_pipe false text, unescape-table_cell text)
