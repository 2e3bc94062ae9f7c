-- ===== src/Realness/Check.antt =====
-- `_run_realness_ast_check` and `_run_native_runner_realness_check` of python/adapters/common.py,
-- with their helpers. `ast.parse` and `str.lower` are arguments. A violation holds what its message
-- says.
pub mod Fabricates
pub mod Reports
pub mod Complete
pub mod Decides
use infernix.Prelude.{
  ℕ, Bool, true, false, Option, none, some, List, [], ◌∷◌, ◌++◌, ◌||◌, any_of, all_of, concat_map,
}
use infernix.Prelude.Text.{Text, codes, text_eq, one_of, contains_text}
use infernix.Realness.Syntax.{
  Constant, text, bytes, other_constant, Node, constant, name, attribute, list_display, joined_str,
  keyword, call, bare_return, return_value, function_def, except_handler, import_names, import_from,
  other, Nodes, nil, cons, Returns, unannotated, annotated, items, ast_walk,
}

pub data Violation : Type 0 where
  return_inside_except : ℕ → Violation
  helper_names_fabrication : ℕ → Text → Violation
  bytes_literal decoded_constant artifact_literal : ℕ → Violation
  literal_result : ℕ → Text → Violation

abbrev pub forbidden_helper_fragments : List Text
forbidden_helper_fragments =
    codes "validation" ∷ codes "smoke" ∷ codes "fallback" ∷ codes "placeholder" ∷ codes "stub" ∷ []

abbrev pub masked_return : Node → List Violation
masked_return (return_value line value) = return_inside_except line ∷ []
masked_return _ = []

-- The first test of the loop.
unfoldable pub except_violations : Node → List Violation
except_violations (except_handler parts) =
    concat_map masked_return (ast_walk (except_handler parts))
except_violations _ = []

abbrev pub is_fabrication_name : (Text → Text) → Text → Bool
is_fabrication_name lower id =
    any_of (λ (fragment : Text). contains_text (lower id) fragment) forbidden_helper_fragments

abbrev pub when : {A : Type 0} → Bool → A → List A
when true v = v ∷ []
when false v = []

unfoldable pub helper_violations : (Text → Text) → Node → List Violation
helper_violations lower (function_def line id parts returns params) =
    when (is_fabrication_name lower id) (helper_names_fabrication line id)
helper_violations lower _ = []

-- The name of what is called, whoever it is an attribute of.
abbrev pub call_name : Node → Option Text
call_name (name id) = some id
call_name (attribute value attr) = some attr
call_name _ = none

abbrev pub is_called : Option Text → List Text → Bool
is_called none names = false
is_called (some id) names = one_of id names

abbrev pub is_list_display : Node → Bool
is_list_display (list_display elts) = true
is_list_display _ = false

abbrev pub is_constant : Node → Bool
is_constant (constant c) = true
is_constant _ = false

-- `args and isinstance(args[0], ...)`
abbrev pub first_is : (Node → Bool) → Nodes → Bool
first_is p nil = false
first_is p (cons x xs) = p x

abbrev pub both : Bool → Bool → Bool
both true b = b
both false b = false

-- The two tests that the native runners are held to as well.
unfoldable pub fabricated_bytes : Node → List Violation
fabricated_bytes (call line func args keywords) =
    when (both (is_called (call_name func) (codes "bytes" ∷ [])) (first_is is_list_display args))
      (bytes_literal line)
    ++ when
        (both (is_called (call_name func) (codes "b64decode" ∷ codes "b64encode" ∷ []))
          (first_is is_constant args))
        (decoded_constant line)
fabricated_bytes _ = []

-- `_is_authored_literal`
unfoldable pub is_authored_literal : Node → Bool
is_authored_literal (constant (text s)) = true
is_authored_literal (constant (bytes s)) = true
is_authored_literal (constant other_constant) = false
is_authored_literal (joined_str values) = all_of is_constant (items values)
is_authored_literal _ = false

abbrev pub is_data : Option Text → Bool
is_data none = false
is_data (some arg) = text_eq arg (codes "data")

abbrev pub is_literal_data : Node → Bool
is_literal_data (keyword arg value) = both (is_data arg) (is_authored_literal value)
is_literal_data _ = false

abbrev pub literal_keyword : ℕ → Node → List Violation
literal_keyword line k = when (is_literal_data k) (artifact_literal line)

-- `_literal_artifact_data_violations`, of an `ArtifactResult` call only.
abbrev pub if_called : Bool → ℕ → Nodes → List Violation
if_called true line keywords = concat_map (literal_keyword line) (items keywords)
if_called false line keywords = []

unfoldable pub artifact_violations : Node → List Violation
artifact_violations (call line func args keywords) =
    if_called (is_called (call_name func) (codes "ArtifactResult" ∷ [])) line keywords
artifact_violations _ = []

abbrev pub result_types : List Text
result_types = codes "ArtifactResult" ∷ codes "TextResult" ∷ []

abbrev pub names_result : Returns → Bool
names_result (annotated (name id)) = one_of id result_types
names_result (annotated (constant (text s))) = one_of s result_types
names_result _ = false

-- `_produces_adapter_result`
unfoldable pub produces_adapter_result : Text → Returns → Bool
produces_adapter_result id returns = text_eq id (codes "transform") || names_result returns

abbrev pub literal_return : Text → Node → List Violation
literal_return id (return_value line value) =
    when (is_authored_literal value) (literal_result line id)
literal_return id _ = []

-- `_literal_result_return_violations`, of a function that produces the result only.
abbrev pub if_produces : Bool → Text → Node → List Violation
if_produces true id node = concat_map (literal_return id) (ast_walk node)
if_produces false id node = []

unfoldable pub result_violations : Node → List Violation
result_violations (function_def line id parts returns params) =
    if_produces (produces_adapter_result id returns) id (function_def line id parts returns params)
result_violations _ = []

-- What the loop adds for one node, in the order of its tests.
unfoldable pub node_violations : (Text → Text) → Node → List Violation
node_violations lower node =
    except_violations node
    ++ (helper_violations lower node
        ++ (fabricated_bytes node ++ (artifact_violations node ++ result_violations node)))

unfoldable pub tree_violations : (Text → Text) → Node → List Violation
tree_violations lower tree = concat_map (node_violations lower) (ast_walk tree)

-- How a check ends: it returns, it raises with its violations, by file, or a file does not parse.
pub data Verdict (A : Type 0) : Type 0 where
  passed : Verdict A
  refused : List A → Verdict A
  unparsed : Verdict A

pub record SourceFile : Type 0 where
  pub file_name : Text
  pub source : Text

abbrev pub conclude : {A : Type 0} → List A → Verdict A
conclude [] = passed
conclude (v ∷ vs) = refused (v ∷ vs)

abbrev pub by_file : Text → List Violation → List (Text × Violation)
by_file file [] = []
by_file file (v ∷ vs) = (file, v) ∷ by_file file vs

abbrev pub then_files :
    Option Node
    → (Node → List Violation)
    → Text
    → Option (List (Text × Violation))
    → Option (List (Text × Violation))
then_files none check file rest = none
then_files (some tree) check file none = none
then_files (some tree) check file (some vs) = some (by_file file (check tree) ++ vs)

-- The loop over the files.
unfoldable pub files_violations :
    (Text → Option Node)
    → (Node → List Violation)
    → List SourceFile
    → Option (List (Text × Violation))
files_violations parse check [] = some []
files_violations parse check (f ∷ files) =
    then_files (parse f.source) check f.file_name (files_violations parse check files)

abbrev pub verdict_of : Option (List (Text × Violation)) → Verdict (Text × Violation)
verdict_of none = unparsed
verdict_of (some vs) = conclude vs

-- `_run_realness_ast_check`, on the files that match `*_python.py`, sorted.
unfoldable pub run_realness_ast_check :
    (Text → Option Node) → (Text → Text) → List SourceFile → Verdict (Text × Violation)
run_realness_ast_check parse lower files =
    verdict_of (files_violations parse (tree_violations lower) files)

-- `_run_native_runner_realness_check`, on the files that match `*.py`, sorted.
unfoldable pub run_native_runner_realness_check :
    (Text → Option Node) → List SourceFile → Verdict (Text × Violation)
run_native_runner_realness_check parse files =
    verdict_of
      (files_violations parse (λ (tree : Node). concat_map fabricated_bytes (ast_walk tree)) files)
