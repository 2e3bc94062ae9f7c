-- ===== src/Realness/Tests.antt =====
-- Runs of the realness checks on small syntax trees, and their theorems at them.
use infernix.Prelude.{◌≡◌, ◌↔◌, refl, Option, some, List, [], ◌∷◌, All}
use infernix.Prelude.Text.{Text, codes, text_eq, one_of, starts_with, contains_text}
use infernix.Realness.Syntax.{
  Node, name, attribute, constant, text, call, return_value, function_def, except_handler,
  import_names, other, nil, cons, unannotated, size, walk_queue, ast_walk,
}
use infernix.Realness.Check.{
  Violation, return_inside_except, literal_result, except_violations, helper_violations,
  fabricated_bytes, is_authored_literal, artifact_violations, produces_adapter_result,
  result_violations, node_violations, tree_violations, passed, refused, SourceFile,
  files_violations, run_realness_ast_check,
}
use infernix.Realness.Check.Decides.{IsReal, passes_iff_IsReal}
use infernix.Realness.Ownership.{
  before_dot, node_misuse, process_module, subprocess_helper, ownership_violations,
}
use infernix.Realness.Ownership.Accepted.{Owns, accepted-Owns_nothing}

-- `def transform(request): return engine(request)`
abbrev computed : Node
computed =
    function_def 1 (codes "transform")
      (cons
        (return_value 2 (call 2 (name (codes "engine")) (cons (name (codes "request")) nil) nil))
        nil)
      unannotated nil

-- The same, with `except: return "ok"` about it.
abbrev masking : Node
masking =
    function_def 1 (codes "transform")
      (cons (except_handler (cons (return_value 4 (constant (text (codes "ok")))) nil)) nil)
      unannotated nil

abbrev parse_to : Node → Text → Option Node
parse_to tree source = some (other (cons tree nil))

abbrev a_file : SourceFile
a_file = record { file_name = codes "a_python.py"; source = [] }

abbrev as_is : Text → Text
as_is s = s

abbrev masked : List (Text × Violation)
masked =
    (codes "a_python.py", literal_result 4 (codes "transform"))
    ∷ (codes "a_python.py", return_inside_except 4)
    ∷ []

computed_passes : run_realness_ast_check (parse_to computed) as_is (a_file ∷ []) ≡ passed
unfolding run_realness_ast_check files_violations tree_violations node_violations except_violations
    helper_violations fabricated_bytes artifact_violations result_violations produces_adapter_result
    is_authored_literal ast_walk one_of contains_text starts_with text_eq
computed_passes = refl

masking-refused : run_realness_ast_check (parse_to masking) as_is (a_file ∷ []) ≡ refused masked
unfolding run_realness_ast_check files_violations tree_violations node_violations except_violations
    helper_violations fabricated_bytes artifact_violations result_violations produces_adapter_result
    is_authored_literal ast_walk one_of contains_text starts_with text_eq
masking-refused = refl

passes_iff_IsReal_example :
    run_realness_ast_check (parse_to masking) as_is (a_file ∷ []) ≡ passed
    ↔ All (IsReal (parse_to masking) as_is) (a_file ∷ [])
passes_iff_IsReal_example = passes_iff_IsReal (parse_to masking) as_is (a_file ∷ [])

-- `import mlx.core` and `mx.eval(value)`
abbrev evaluates : Node
evaluates = other (
    cons (import_names 1 (codes "mlx.core" ∷ [])) (
      cons
        (call 2 (attribute (name (codes "mx")) (codes "eval")) (cons (name (codes "value")) nil)
          nil)
        nil))

evaluates_accepted : ownership_violations evaluates (codes "import mlx.core") ≡ []
unfolding ownership_violations node_misuse before_dot ast_walk size walk_queue one_of contains_text
    starts_with text_eq
evaluates_accepted = refl

spawner_refused :
    ownership_violations
      (import_names 3 (codes "asyncio.subprocess" ∷ []))
      (codes "def _run_subprocess")
    ≡ process_module 3 (codes "asyncio.subprocess") ∷ subprocess_helper ∷ []
unfolding ownership_violations node_misuse before_dot ast_walk size walk_queue one_of contains_text
    starts_with text_eq
spawner_refused = refl

accepted-Owns_nothing_example : ¬ Owns evaluates (codes "import mlx.core")
accepted-Owns_nothing_example =
    accepted-Owns_nothing evaluates (codes "import mlx.core") evaluates_accepted
