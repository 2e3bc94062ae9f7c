-- ===== src/Realness/Syntax/Occurs.antt =====
-- `ast.walk` yields the nodes that occur in a tree.
use infernix.Prelude.{
  ℕ, zero, suc, ◌+◌, ◌≤◌, ◌≡◌, inl, inr, refl, ap, ◌∙◌, subst, List, [], ◌∷◌, ◌++◌, arith, sum_of,
  In, In-append, In-append_left, In-append_right,
}
use infernix.Realness.Syntax.{
  Node, constant, name, attribute, list_display, joined_str, keyword, call, bare_return,
  return_value, function_def, except_handler, import_names, import_from, other, Nodes, nil, cons,
  Returns, unannotated, annotated, items, annotation, children, size, size_items, size_returns,
  walk_queue, ast_walk,
}

-- `y` is a node of the tree.
pub data Occurs (y : Node) : Node → Type 0 where
  here : {x : Node} → y ≡ x → Occurs y x
  below : {x c : Node} → In c (children x) → Occurs y c → Occurs y x

sum_of-append : (xs ys : List Node) → sum_of size (xs ++ ys) ≡ sum_of size xs + sum_of size ys
sum_of-append [] ys = omega arith
sum_of-append (x ∷ xs) ys = omega (arith, sum_of-append xs ys)

size-items : (xs : Nodes) → size_items xs ≡ sum_of size (items xs)
unfolding size
size-items nil = refl
size-items (cons x xs) = omega (arith, size-items xs)

size-annotation : (r : Returns) → size_returns r ≡ sum_of size (annotation r)
unfolding size
size-annotation unannotated = refl
size-annotation (annotated x) = omega arith

size-children : (x : Node) → size x ≡ suc (sum_of size (children x))
unfolding size
size-children (constant c) = refl
size-children (name id) = refl
size-children (attribute value attr) = omega arith
size-children (list_display elts) = omega (arith, size-items elts)
size-children (joined_str values) = omega (arith, size-items values)
size-children (keyword arg value) = omega arith
size-children (call line func args keywords) =
    omega (arith, size-items args, size-items keywords, sum_of-append (items args) (items keywords))
size-children bare_return = refl
size-children (return_value line value) = omega arith
size-children (function_def line id parts returns params) = omega (
  arith,
  size-items parts,
  size-annotation returns,
  size-items params,
  sum_of-append (items parts) (annotation returns ++ items params),
  sum_of-append (annotation returns) (items params),
)
size-children (except_handler parts) = omega (arith, size-items parts)
size-children (import_names line names) = refl
size-children (import_from line from) = refl
size-children (other parts) = omega (arith, size-items parts)

size-In : (x : Node) (xs : List Node) → In x xs → size x ≤ sum_of size xs
size-In x [] m = absurd m
size-In x (y ∷ ys) (inl e) = omega (arith, ap size e)
size-In x (y ∷ ys) (inr m) = omega (arith, size-In x ys m)

walk_queue_sound :
    (fuel : ℕ) (todo : List Node) (y : Node)
    → In y (walk_queue fuel todo)
    → (x : Node) × In x todo × Occurs y x
unfolding walk_queue
walk_queue_sound zero todo y m = absurd m
walk_queue_sound (suc fuel) [] y m = absurd m
walk_queue_sound (suc fuel) (node ∷ todo) y (inl e) = (node, inl refl, here e)
walk_queue_sound (suc fuel) (node ∷ todo) y (inr m) =
    let (x, i, o) = walk_queue_sound fuel (todo ++ children node) y m in
    elim (In-append x todo (children node) i) [
      | inl l ↦ (x, inr l, o)
      | inr r ↦ (node, inl refl, below r o)
    ]

walk_queue_complete :
    (fuel : ℕ) (todo : List Node) (y x : Node)
    → sum_of size todo ≤ fuel
    → In x todo
    → Occurs y x
    → In y (walk_queue fuel todo)
unfolding walk_queue
walk_queue_complete zero todo y x h i o = absurd (omega (arith, size-children x, size-In x todo i))
walk_queue_complete (suc fuel) [] y x h i o = absurd i
walk_queue_complete (suc fuel) (node ∷ todo) y x h (inl e) (here e') = inl (e' ∙ e)
walk_queue_complete (suc fuel) (node ∷ todo) y x h (inl e) (below {c = c} m o) = inr (
    walk_queue_complete fuel (todo ++ children node) y c
      (omega (arith, size-children node, sum_of-append todo (children node)))
      (In-append_right c todo (children node) (subst (λ (z : Node). In c (children z)) e m)) o)
walk_queue_complete (suc fuel) (node ∷ todo) y x h (inr i) o = inr (
    walk_queue_complete fuel (todo ++ children node) y x
      (omega (arith, size-children node, sum_of-append todo (children node)))
      (In-append_left x todo (children node) i) o)

-- The walk yields only nodes of the tree, and every one of them: its fuel is enough.
pub ast_walk_sound : (tree y : Node) → In y (ast_walk tree) → Occurs y tree
unfolding ast_walk
ast_walk_sound tree y m =
    let (x, i, o) = walk_queue_sound (size tree) (tree ∷ []) y m in
    elim i [ inl e ↦ subst (Occurs y) e o | inr n ↦ absurd n ]

pub ast_walk_complete : (tree y : Node) → Occurs y tree → In y (ast_walk tree)
unfolding ast_walk
ast_walk_complete tree y o =
    walk_queue_complete (size tree) (tree ∷ []) y tree (omega arith) (inl refl) o
