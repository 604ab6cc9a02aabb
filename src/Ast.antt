-- ===== src/Ast.antt =====
-- Syntax trees of Python files, as the validators read them. The parts of a node that none of them
-- reads are the children of an `other` node.
pub mod Every
use functional_tests.Base.{ℕ, Bool, true, false, Option, none, some, List, [], ◌∷◌, ◌++◌}
use functional_tests.Base.Text.{Text}

-- The value of an `ast.Constant`: a string, or anything else.
pub data Literal : Type 0 where
  text : Text → Literal
  other : Literal

-- The numbers are lines. A function has its line, whether it is `async`, its name, whether it has a
-- docstring, its arguments, its body and its decorators.
mutual
  pub data Node : Type 0 where
    name : Text → Node
    attribute : ℕ → Node → Text → Node
    constant : Literal → Node
    call : ℕ → Node → Nodes → Nodes → Node
    keyword : Option Text → Node → Node
    list_of lambda : Nodes → Node
    assertion : ℕ → Nodes → Node
    function : ℕ → Bool → Text → Bool → Nodes → Nodes → Nodes → Node
    class_def : ℕ → Nodes → Nodes → Node
    other : ℕ → Nodes → Node

  pub data Nodes : Type 0 where
    nil : Nodes
    cons : Node → Nodes → Nodes

unfoldable pub append : Nodes → Nodes → Nodes
append nil ns = ns
append (cons m ms) ns = cons m (append ms ns)

-- Levels of two forests side by side.
unfoldable pub zip_append : List (List Node) → List (List Node) → List (List Node)
zip_append [] bs = bs
zip_append (a ∷ as_) [] = a ∷ as_
zip_append (a ∷ as_) (b ∷ bs) = (a ++ b) ∷ zip_append as_ bs

-- The nodes at each depth. Children come in the order of the fields of Python's `ast`.
unfoldable mutual
  pub levels : Node → List (List Node)
  levels (name s) = (name s ∷ []) ∷ []
  levels (constant c) = (constant c ∷ []) ∷ []
  levels (attribute line n s) = (attribute line n s ∷ []) ∷ levels n
  levels (keyword k n) = (keyword k n ∷ []) ∷ levels n
  levels (call line f args keywords) =
      (call line f args keywords ∷ [])
      ∷ zip_append (levels f) (zip_append (forest args) (forest keywords))
  levels (list_of ns) = (list_of ns ∷ []) ∷ forest ns
  levels (lambda ns) = (lambda ns ∷ []) ∷ forest ns
  levels (assertion line ns) = (assertion line ns ∷ []) ∷ forest ns
  levels (function line is_async s doc args body decorators) =
      (function line is_async s doc args body decorators ∷ [])
      ∷ zip_append (forest args) (zip_append (forest body) (forest decorators))
  levels (class_def line body decorators) =
      (class_def line body decorators ∷ []) ∷ zip_append (forest body) (forest decorators)
  levels (other line ns) = (other line ns ∷ []) ∷ forest ns

  pub forest : Nodes → List (List Node)
  forest nil = []
  forest (cons n ns) = zip_append (levels n) (forest ns)

unfoldable pub concat {ℓ} : {A : Type ℓ} → List (List A) → List A
concat [] = []
concat (xs ∷ xss) = xs ++ concat xss

-- `ast.walk`, which goes through a queue: level by level.
unfoldable pub walk : Node → List Node
unfolding levels zip_append concat
walk n = concat (levels n)

-- The errors of each node in turn.
unfoldable pub gather {ℓ κ} : {A : Type ℓ} {B : Type κ} → (A → List B) → List A → List B
gather f [] = []
gather f (x ∷ xs) = f x ++ gather f xs

abbrev pub to_list : Nodes → List Node
to_list nil = []
to_list (cons n ns) = n ∷ to_list ns
