-- ===== src/Realness/Syntax.antt =====
-- The syntax trees of Python's `ast`, as far as the checks of python/adapters/common.py look at
-- them, and `ast.walk`. A node that no check looks at is `other`, with its children; what has no
-- children and is never looked at (contexts, operators, the aliases of an import) is left out.
pub mod Occurs
use infernix.Prelude.{ℕ, zero, suc, ◌+◌, ◌≡◌, refl, Option, List, [], ◌∷◌, ◌++◌, arith, sum_of}
use infernix.Prelude.Text.{Text}

-- The value of an `ast.Constant`.
pub data Constant : Type 0 where
  text : Text → Constant
  bytes : Text → Constant
  other_constant : Constant

-- The numbers are `lineno`. A function's nodes are its arguments, body and decorators, then its
-- annotation, then its type parameters; `function_def` stands for the asynchronous kind too.
mutual
  pub data Node : Type 0 where
    constant : Constant → Node
    name : Text → Node
    attribute : Node → Text → Node
    list_display : Nodes → Node
    joined_str : Nodes → Node
    keyword : Option Text → Node → Node
    call : ℕ → Node → Nodes → Nodes → Node
    bare_return : Node
    return_value : ℕ → Node → Node
    function_def : ℕ → Text → Nodes → Returns → Nodes → Node
    except_handler : Nodes → Node
    import_names : ℕ → List Text → Node
    import_from : ℕ → Option Text → Node
    other : Nodes → Node

  pub data Nodes : Type 0 where
    nil : Nodes
    cons : Node → Nodes → Nodes

  pub data Returns : Type 0 where
    unannotated : Returns
    annotated : Node → Returns

abbrev pub items : Nodes → List Node
items nil = []
items (cons x xs) = x ∷ items xs

abbrev pub annotation : Returns → List Node
annotation unannotated = []
annotation (annotated x) = x ∷ []

-- `ast.iter_child_nodes`
abbrev pub children : Node → List Node
children (constant c) = []
children (name id) = []
children (attribute value attr) = value ∷ []
children (list_display elts) = items elts
children (joined_str values) = items values
children (keyword arg value) = value ∷ []
children (call line func args keywords) = func ∷ (items args ++ items keywords)
children bare_return = []
children (return_value line value) = value ∷ []
children (function_def line id parts returns params) =
    items parts ++ (annotation returns ++ items params)
children (except_handler parts) = items parts
children (import_names line names) = []
children (import_from line from) = []
children (other parts) = items parts

unfoldable mutual
  pub size : Node → ℕ
  size (constant c) = 1
  size (name id) = 1
  size (attribute value attr) = suc (size value)
  size (list_display elts) = suc (size_items elts)
  size (joined_str values) = suc (size_items values)
  size (keyword arg value) = suc (size value)
  size (call line func args keywords) = suc (size func + (size_items args + size_items keywords))
  size bare_return = 1
  size (return_value line value) = suc (size value)
  size (function_def line id parts returns params) =
      suc (size_items parts + (size_returns returns + size_items params))
  size (except_handler parts) = suc (size_items parts)
  size (import_names line names) = 1
  size (import_from line from) = 1
  size (other parts) = suc (size_items parts)

  pub size_items : Nodes → ℕ
  size_items nil = 0
  size_items (cons x xs) = size x + size_items xs

  pub size_returns : Returns → ℕ
  size_returns unannotated = 0
  size_returns (annotated x) = size x

-- The queue of `ast.walk`, on fuel.
unfoldable pub walk_queue : ℕ → List Node → List Node
walk_queue zero todo = []
walk_queue (suc fuel) [] = []
walk_queue (suc fuel) (node ∷ todo) = node ∷ walk_queue fuel (todo ++ children node)

-- `ast.walk`: breadth first.
unfoldable pub ast_walk : Node → List Node
unfolding size walk_queue
ast_walk node = walk_queue (size node) (node ∷ [])
