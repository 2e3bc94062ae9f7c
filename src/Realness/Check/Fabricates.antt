-- ===== src/Realness/Check/Fabricates.antt =====
-- The fabrication patterns that the docstring of `_run_realness_ast_check` in
-- python/adapters/common.py lists, as a relation on the syntax tree.
use infernix.Prelude.{
  or_right, one_of_inv, one_of-In, ℕ, ◌≡◌, inl, inr, refl, true, some, List, [], ◌∷◌, In, All,
  all_of, Bool-cases,
}
use infernix.Prelude.Text.{Text, codes, text_eq, text_eq_iff, one_of, contains_text}
use infernix.Realness.Syntax.{
  Constant, text, bytes, other_constant, Node, constant, name, list_display, joined_str, keyword,
  call, return_value, function_def, except_handler, Nodes, cons, Returns, unannotated, annotated,
  items,
}
use infernix.Realness.Syntax.Occurs.{Occurs}
use infernix.Realness.Check.{
  forbidden_helper_fragments, call_name, result_types, is_constant, is_authored_literal,
  names_result, produces_adapter_result,
}

-- Written into the source: a text, bytes, or an f-string with nothing to compute in it.
pub data Authored : Node → Type 0 where
  authored_text : (s : Text) → Authored (constant (text s))
  authored_bytes : (s : Text) → Authored (constant (bytes s))
  authored_f_string :
      {values : Nodes}
      → All (λ (x : Node). is_constant x ≡ true) (items values)
      → Authored (joined_str values)

-- A function whose value becomes the result: `transform`, or one with such an annotation.
pub data Produces (id : Text) : Returns → Type 0 where
  is_transform : {returns : Returns} → id ≡ codes "transform" → Produces id returns
  named : {t : Text} → In t result_types → Produces id (annotated (name t))
  quoted : {t : Text} → In t result_types → Produces id (annotated (constant (text t)))

pub data Fabricates (lower : Text → Text) (tree : Node) : Type 0 where
  masks_failure :
      {parts : Nodes} {line : ℕ} {value : Node}
      → Occurs (except_handler parts) tree
      → Occurs (return_value line value) (except_handler parts)
      → Fabricates lower tree
  names_fabrication :
      {line : ℕ} {id : Text} {parts : Nodes} {returns : Returns} {params : Nodes} {fragment : Text}
      → Occurs (function_def line id parts returns params) tree
      → In fragment forbidden_helper_fragments
      → contains_text (lower id) fragment ≡ true
      → Fabricates lower tree
  builds_bytes :
      {line : ℕ} {func : Node} {elts args keywords : Nodes}
      → Occurs (call line func (cons (list_display elts) args) keywords) tree
      → call_name func ≡ some (codes "bytes")
      → Fabricates lower tree
  decodes_constant :
      {line : ℕ} {func : Node} {c : Constant} {args keywords : Nodes} {id : Text}
      → Occurs (call line func (cons (constant c) args) keywords) tree
      → call_name func ≡ some id
      → In id (codes "b64decode" ∷ codes "b64encode" ∷ [])
      → Fabricates lower tree
  writes_artifact :
      {line : ℕ} {func : Node} {args keywords : Nodes} {value : Node}
      → Occurs (call line func args keywords) tree
      → call_name func ≡ some (codes "ArtifactResult")
      → In (keyword (some (codes "data")) value) (items keywords)
      → Authored value
      → Fabricates lower tree
  writes_result :
      {line : ℕ} {id : Text} {parts : Nodes} {returns : Returns} {params : Nodes} {at : ℕ}
      {value : Node}
      → Occurs (function_def line id parts returns params) tree
      → Produces id returns
      → Occurs (return_value at value) (function_def line id parts returns params)
      → Authored value
      → Fabricates lower tree

-- The tests of the check, in terms of these.
all_of-All :
    (xs : List Node) → all_of is_constant xs ≡ true → All (λ (x : Node). is_constant x ≡ true) xs
all_of-All [] h = tt
all_of-All (x ∷ xs) h = elim (Bool-cases (is_constant x)) [
  | inl e ↦ (e, all_of-All xs (rw e at h))
  | inr e ↦ absurd (cc (rw e at h))
]

All-all_of :
    (xs : List Node) → All (λ (x : Node). is_constant x ≡ true) xs → all_of is_constant xs ≡ true
All-all_of [] h = refl
All-all_of (x ∷ xs) h = rw h.0 (All-all_of xs h.1)

pub Authored-sound : (x : Node) → is_authored_literal x ≡ true → Authored x
unfolding is_authored_literal
Authored-sound (constant (text s)) h = authored_text s
Authored-sound (constant (bytes s)) h = authored_bytes s
Authored-sound (constant other_constant) h = absurd (cc h)
Authored-sound (joined_str values) h = authored_f_string (all_of-All (items values) h)
Authored-sound _ h = absurd (cc h)

pub Authored-complete : (x : Node) → Authored x → is_authored_literal x ≡ true
unfolding is_authored_literal
Authored-complete x (authored_text s) = refl
Authored-complete x (authored_bytes s) = refl
Authored-complete x (authored_f_string {values} h) = All-all_of (items values) h

names_result_inv : (id : Text) (r : Returns) → names_result r ≡ true → Produces id r
names_result_inv id unannotated h = absurd (cc h)
names_result_inv id (annotated (name t)) h = named (one_of_inv t result_types h)
names_result_inv id (annotated (constant (text t))) h = quoted (one_of_inv t result_types h)
names_result_inv id (annotated (constant (bytes t))) h = absurd (cc h)
names_result_inv id (annotated (constant other_constant)) h = absurd (cc h)
names_result_inv id (annotated _) h = absurd (cc h)

pub Produces-sound : (id : Text) (r : Returns) → produces_adapter_result id r ≡ true → Produces id r
unfolding produces_adapter_result
Produces-sound id r h = elim (Bool-cases (text_eq id (codes "transform"))) [
  | inl e ↦ is_transform ((text_eq_iff id (codes "transform")).0 e)
  | inr e ↦ names_result_inv id r (rw e at h)
]

pub Produces-complete :
    (id : Text) (r : Returns) → Produces id r → produces_adapter_result id r ≡ true
unfolding produces_adapter_result
Produces-complete id r (is_transform e) = rw ((text_eq_iff id (codes "transform")).1 e)
Produces-complete id r (named {t} m) =
    or_right (text_eq id (codes "transform")) (one_of t result_types) (one_of-In t result_types m)
Produces-complete id r (quoted {t} m) =
    or_right (text_eq id (codes "transform")) (one_of t result_types) (one_of-In t result_types m)
