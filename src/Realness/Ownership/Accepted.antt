-- ===== src/Realness/Ownership/Accepted.antt =====
-- What is not in a runner that the ownership check of python/adapters/common.py accepts.
use infernix.Prelude.{
  or_left, or_right, one_of-In, ℕ, ◌≡◌, ap, ◌∙◌, true, some, List, [], ◌++◌, In, In-append_left,
  In-append_right, concat_map-In, concat_map, any_of,
}
use infernix.Prelude.Text.{Text, codes, text_eq, text_eq_refl, one_of, starts_with, contains_text}
use infernix.Realness.Syntax.{
  Node, name, attribute, keyword, call, import_names, import_from, Nodes, items, ast_walk,
}
use infernix.Realness.Syntax.Occurs.{Occurs, ast_walk_complete}
use infernix.Realness.Check.{when, call_name}
use infernix.Realness.Check.Complete.{when-true, any_of-true}
use infernix.Realness.Ownership.{
  Misuse, process_module, code_loader, module_loader, child_operation, shell_invocation,
  subprocess_helper, unknown_operands, forbidden_modules, forbidden_calls, forbidden_prefixes,
  forbidden_builtin_loaders, before_dot, is_process_module, import_misuse, loader_misuse,
  names_operation, is_child_operation, is_shell, node_misuse, ownership_violations,
}

-- The ways in which a source could start or hold a child process, as the check names them.
pub data Owns (tree : Node) (source : Text) : Type 0 where
  imports :
      (m : Text) {line : ℕ} {names : List Text}
      → Occurs (import_names line names) tree
      → In m names
      → In (before_dot m) forbidden_modules
      → Owns tree source
  imports_from :
      (m : Text) {line : ℕ}
      → Occurs (import_from line (some m)) tree
      → In (before_dot m) forbidden_modules
      → Owns tree source
  loads_code :
      {line : ℕ} {id : Text} {args keywords : Nodes}
      → Occurs (call line (name id) args keywords) tree
      → In id forbidden_builtin_loaders
      → Owns tree source
  loads_module :
      {line : ℕ} {value : Node} {args keywords : Nodes}
      → Occurs (call line (attribute value (codes "import_module")) args keywords) tree
      → Owns tree source
  calls :
      {line : ℕ} {func : Node} {id : Text} {args keywords : Nodes}
      → Occurs (call line func args keywords) tree
      → call_name func ≡ some id
      → In id forbidden_calls
      → Owns tree source
  calls_like :
      {line : ℕ} {func : Node} {id p : Text} {args keywords : Nodes}
      → Occurs (call line func args keywords) tree
      → call_name func ≡ some id
      → In p forbidden_prefixes
      → starts_with id p ≡ true
      → Owns tree source
  shells :
      (value : Node) {line : ℕ} {func : Node} {args keywords : Nodes}
      → Occurs (call line func args keywords) tree
      → In (keyword (some (codes "shell")) value) (items keywords)
      → Owns tree source
  helps : contains_text source (codes "_run_subprocess") ≡ true → Owns tree source
  ignores_operands : contains_text source (codes "parse_known_args") ≡ true → Owns tree source

module _ (tree : Node) (source : Text) where
  abbrev Found : Type 0
  Found = (v : Misuse) × In v (ownership_violations tree source)

  found : (x : Node) (v : Misuse) → Occurs x tree → In v (node_misuse x) → Found
  unfolding ownership_violations
  found x v o j = (
    v,
    In-append_left v (concat_map node_misuse (ast_walk tree))
        (when (contains_text source (codes "_run_subprocess")) subprocess_helper
          ++ when (contains_text source (codes "parse_known_args")) unknown_operands)
        (concat_map-In node_misuse v x (ast_walk tree) (ast_walk_complete tree x o) j),
  )

  found_text :
      (v : Misuse)
      → In v (
          when (contains_text source (codes "_run_subprocess")) subprocess_helper
          ++ when (contains_text source (codes "parse_known_args")) unknown_operands)
      → Found
  unfolding ownership_violations
  found_text v j = (v, In-append_right v (concat_map node_misuse (ast_walk tree)) _ j)

  found_operation :
      {line : ℕ} {func : Node} {args keywords : Nodes} {id : Text}
      → Occurs (call line func args keywords) tree
      → call_name func ≡ some id
      → names_operation id ≡ true
      → Found
  unfolding node_misuse
  found_operation {line} {func} {args} {keywords} {id} o e h =
      found (call line func args keywords) (child_operation line (call_name func)) o (
        In-append_right (child_operation line (call_name func)) (loader_misuse line func) _ (
          In-append_left (child_operation line (call_name func))
            (when (is_child_operation (call_name func)) (child_operation line (call_name func))) _
            (when-true (is_child_operation (call_name func)) (child_operation line (call_name func))
              (ap is_child_operation e ∙ h))))

  found_owner : Owns tree source → Found
  unfolding node_misuse
  found_owner (imports m {line} {names} o i h) =
      found (import_names line names) (process_module line m) o (
        concat_map-In (import_misuse line) (process_module line m) m names i (
          when-true (is_process_module m) (process_module line m)
            (one_of-In (before_dot m) forbidden_modules h)))
  found_owner (imports_from m {line} o h) =
      found (import_from line (some m)) (process_module line m) o (
        when-true (is_process_module m) (process_module line m)
          (one_of-In (before_dot m) forbidden_modules h))
  found_owner (loads_code {line} {id} {args} {keywords} o h) =
      found (call line (name id) args keywords) (code_loader line id) o (
        In-append_left (code_loader line id)
          (when (one_of id forbidden_builtin_loaders) (code_loader line id)) _
          (when-true (one_of id forbidden_builtin_loaders) (code_loader line id)
            (one_of-In id forbidden_builtin_loaders h)))
  found_owner (loads_module {line} {value} {args} {keywords} o) =
      found (call line (attribute value (codes "import_module")) args keywords) (module_loader line)
        o
        (In-append_left (module_loader line)
          (when (text_eq (codes "import_module") (codes "import_module")) (module_loader line)) _
          (when-true (text_eq (codes "import_module") (codes "import_module")) (module_loader line)
            (text_eq_refl (codes "import_module"))))
  found_owner (calls {id = id} o e i) =
      found_operation o e (or_left (one_of id forbidden_calls) _ (one_of-In id forbidden_calls i))
  found_owner (calls_like {id = id} {p = p} o e i h) = found_operation o e (
      or_right (one_of id forbidden_calls) _
        (any_of-true (λ (q : Text). starts_with id q) p forbidden_prefixes i h))
  found_owner (shells value {line} {func} {args} {keywords} o i) =
      found (call line func args keywords) (shell_invocation line) o (
        In-append_right (shell_invocation line) (loader_misuse line func) _ (
          In-append_right (shell_invocation line)
            (when (is_child_operation (call_name func)) (child_operation line (call_name func))) _
            (when-true (any_of is_shell (items keywords)) (shell_invocation line) (
              any_of-true is_shell (keyword (some (codes "shell")) value) (items keywords) i
                (text_eq_refl (codes "shell"))))))
  found_owner (helps h) = found_text subprocess_helper (
      In-append_left subprocess_helper
        (when (contains_text source (codes "_run_subprocess")) subprocess_helper) _
        (when-true (contains_text source (codes "_run_subprocess")) subprocess_helper h))
  found_owner (ignores_operands h) = found_text unknown_operands (
      In-append_right unknown_operands
        (when (contains_text source (codes "_run_subprocess")) subprocess_helper) _
        (when-true (contains_text source (codes "parse_known_args")) unknown_operands h))

  -- In a runner that the ownership check accepts, nothing at any depth of its tree imports a
  -- process module, loads code, calls a process operation or one that starts like it, or passes
  -- `shell`, and the source names neither of the two helpers.
  pub accepted-Owns_nothing : ownership_violations tree source ≡ [] → ¬ Owns tree source
  accepted-Owns_nothing e h = let (v, i) = found_owner h in rw e at i
