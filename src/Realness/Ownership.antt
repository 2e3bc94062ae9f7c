-- ===== src/Realness/Ownership.antt =====
-- `_apple_native_runner_ownership_violations` of python/adapters/common.py: that the runner can
-- neither create nor own child processes. The tree is that of the runner's source.
pub mod Accepted
use infernix.Prelude.{
  ℕ, Bool, true, false, Option, none, some, List, [], ◌∷◌, ◌++◌, ◌==◌, ◌||◌, any_of, concat_map,
}
use infernix.Prelude.Text.{Text, codes, text_eq, one_of, starts_with, contains_text}
use infernix.Realness.Syntax.{
  Node, name, attribute, keyword, call, import_names, import_from, Nodes, items, ast_walk,
}
use infernix.Realness.Check.{when, call_name, is_called}

pub data Misuse : Type 0 where
  process_module : ℕ → Text → Misuse
  code_loader : ℕ → Text → Misuse
  module_loader : ℕ → Misuse
  child_operation : ℕ → Option Text → Misuse
  shell_invocation : ℕ → Misuse
  subprocess_helper unknown_operands : Misuse

abbrev pub forbidden_modules : List Text
forbidden_modules =
    codes "_posixsubprocess"
    ∷ codes "asyncio"
    ∷ codes "ctypes"
    ∷ codes "multiprocessing"
    ∷ codes "posix"
    ∷ codes "pty"
    ∷ codes "subprocess"
    ∷ []

abbrev pub forbidden_calls : List Text
forbidden_calls =
    codes "Popen"
    ∷ codes "exec"
    ∷ codes "fork"
    ∷ codes "popen"
    ∷ codes "posix_spawn"
    ∷ codes "posix_spawnp"
    ∷ codes "spawn"
    ∷ codes "system"
    ∷ codes "wait"
    ∷ codes "wait3"
    ∷ codes "wait4"
    ∷ codes "waitid"
    ∷ codes "waitpid"
    ∷ []

abbrev pub forbidden_prefixes : List Text
forbidden_prefixes = codes "exec" ∷ codes "fork" ∷ codes "spawn" ∷ codes "wait" ∷ []

abbrev pub forbidden_builtin_loaders : List Text
forbidden_builtin_loaders = codes "__import__" ∷ codes "compile" ∷ codes "eval" ∷ codes "exec" ∷ []

-- `s.split(".", 1)[0]`
unfoldable pub before_dot : Text → Text
before_dot [] = []
before_dot (c ∷ s) = let rest = before_dot s in elim (c == 46) [ true ↦ [] | false ↦ c ∷ rest ]

abbrev pub is_process_module : Text → Bool
is_process_module imported = one_of (before_dot imported) forbidden_modules

abbrev pub module_or_empty : Option Text → Text
module_or_empty none = []
module_or_empty (some m) = m

abbrev pub import_misuse : ℕ → Text → List Misuse
import_misuse line imported = when (is_process_module imported) (process_module line imported)

-- The dynamic loaders: some as names, one as an attribute.
abbrev pub loader_misuse : ℕ → Node → List Misuse
loader_misuse line (name id) = when (one_of id forbidden_builtin_loaders) (code_loader line id)
loader_misuse line (attribute value attr) =
    when (text_eq attr (codes "import_module")) (module_loader line)
loader_misuse line _ = []

abbrev pub names_operation : Text → Bool
names_operation id =
    one_of id forbidden_calls || any_of (λ (p : Text). starts_with id p) forbidden_prefixes

abbrev pub is_child_operation : Option Text → Bool
is_child_operation none = false
is_child_operation (some id) = names_operation id

abbrev pub is_shell : Node → Bool
is_shell (keyword (some arg) value) = text_eq arg (codes "shell")
is_shell _ = false

abbrev pub call_misuse : ℕ → Node → Nodes → List Misuse
call_misuse line func keywords =
    loader_misuse line func
    ++ (when (is_child_operation (call_name func)) (child_operation line (call_name func))
        ++ when (any_of is_shell (items keywords)) (shell_invocation line))

unfoldable pub node_misuse : Node → List Misuse
unfolding before_dot
node_misuse (import_names line names) = concat_map (import_misuse line) names
node_misuse (import_from line from) = import_misuse line (module_or_empty from)
node_misuse (call line func args keywords) = call_misuse line func keywords
node_misuse _ = []

-- The whole of the function, on the parsed source and the source.
unfoldable pub ownership_violations : Node → Text → List Misuse
ownership_violations runner_tree runner_source =
    concat_map node_misuse (ast_walk runner_tree)
    ++ (when (contains_text runner_source (codes "_run_subprocess")) subprocess_helper
        ++ when (contains_text runner_source (codes "parse_known_args")) unknown_operands)
