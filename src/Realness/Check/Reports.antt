-- ===== src/Realness/Check/Reports.antt =====
-- What the tests of `_run_realness_ast_check` in python/adapters/common.py report of a tree, against
-- the patterns that it is to reject.
use infernix.Prelude.{
  one_of_inv, ℕ, ◌≡◌, inl, inr, refl, ap, ◌∙◌, subst, Bool, true, false, Option, none, some, List,
  [], ◌∷◌, ◌++◌, In, In-append, In-concat_map, any_of_inv,
}
use infernix.Prelude.Text.{Text, codes, text_eq_iff, contains_text}
use infernix.Realness.Syntax.{
  Constant, Node, constant, list_display, keyword, call, return_value, function_def, except_handler,
  Nodes, nil, cons, items, ast_walk,
}
use infernix.Realness.Syntax.Occurs.{Occurs, ast_walk_sound}
use infernix.Realness.Check.{
  Violation, helper_names_fabrication, bytes_literal, decoded_constant, artifact_literal,
  literal_result, forbidden_helper_fragments, masked_return, except_violations, is_fabrication_name,
  when, helper_violations, call_name, is_called, is_list_display, is_constant, first_is, both,
  fabricated_bytes, is_authored_literal, is_data, is_literal_data, literal_keyword, if_called,
  artifact_violations, produces_adapter_result, literal_return, if_produces, result_violations,
  node_violations, tree_violations,
}
use infernix.Realness.Check.Fabricates.{
  Fabricates, masks_failure, names_fabrication, builds_bytes, decodes_constant, writes_artifact,
  writes_result, Authored-sound, Produces-sound,
}

when_inv : {A : Type 0} → (b : Bool) (w v : A) → In v (when b w) → b ≡ true
when_inv true w v m = refl
when_inv false w v m = absurd m

both_inv : (a b : Bool) → both a b ≡ true → (a ≡ true) × (b ≡ true)
both_inv true b h = (refl, h)
both_inv false b h = absurd (cc h)

is_called_inv :
    (o : Option Text) (ids : List Text)
    → is_called o ids ≡ true
    → (id : Text) × (o ≡ some id) × In id ids
is_called_inv none ids h = absurd (cc h)
is_called_inv (some id) ids h = (id, refl, one_of_inv id ids h)

is_called_one : (o : Option Text) (t : Text) → is_called o (t ∷ []) ≡ true → o ≡ some t
is_called_one o t h =
    let (id, e, m) = is_called_inv o (t ∷ []) h in
    elim m [ inl same ↦ e ∙ ap (λ (s : Text). some s) same | inr n ↦ absurd n ]

module _ (lower : Text → Text) (tree : Node) where
  except_sound :
      (x : Node) (v : Violation)
      → Occurs x tree
      → In v (except_violations x)
      → Fabricates lower tree
  unfolding except_violations
  except_sound (except_handler parts) v o m =
      let (inner, i, j) = In-concat_map masked_return v (ast_walk (except_handler parts)) m in
      masked inner (ast_walk_sound (except_handler parts) inner i) j
    where
      masked :
          (inner : Node)
          → Occurs inner (except_handler parts)
          → In v (masked_return inner)
          → Fabricates lower tree
      masked (return_value line value) i j = masks_failure o i
      masked _ i j = absurd j
  except_sound _ v o m = absurd m

  helper_sound :
      (x : Node) (v : Violation)
      → Occurs x tree
      → In v (helper_violations lower x)
      → Fabricates lower tree
  unfolding helper_violations
  helper_sound (function_def line id parts returns params) v o m =
      let (fragment, i, h) =
        any_of_inv (λ (f : Text). contains_text (lower id) f) forbidden_helper_fragments
          (when_inv (is_fabrication_name lower id) (helper_names_fabrication line id) v m) in
      names_fabrication o i h
  helper_sound _ v o m = absurd m

  -- What the first argument is, where the code looks at it.
  first_list : (x : Node) → is_list_display x ≡ true → (elts : Nodes) × (x ≡ list_display elts)
  first_list (list_display elts) h = (elts, refl)
  first_list _ h = absurd (cc h)

  first_constant : (x : Node) → is_constant x ≡ true → (c : Constant) × (x ≡ constant c)
  first_constant (constant c) h = (c, refl)
  first_constant _ h = absurd (cc h)

  bytes_sound :
      (line : ℕ) (func : Node) (args keywords : Nodes)
      → Occurs (call line func args keywords) tree
      → both (is_called (call_name func) (codes "bytes" ∷ [])) (first_is is_list_display args)
        ≡ true
      → Fabricates lower tree
  bytes_sound line func nil keywords o h =
      absurd (cc ((both_inv (is_called (call_name func) (codes "bytes" ∷ [])) false h).1))
  bytes_sound line func (cons x args) keywords o h =
      let (named, first) =
        both_inv (is_called (call_name func) (codes "bytes" ∷ [])) (is_list_display x) h in
      let (elts, e) = first_list x first in
      builds_bytes (subst (λ (y : Node). Occurs (call line func (cons y args) keywords) tree) e o)
        (is_called_one (call_name func) (codes "bytes") named)

  decode_sound :
      (line : ℕ) (func : Node) (args keywords : Nodes)
      → Occurs (call line func args keywords) tree
      → both
          (is_called (call_name func) (codes "b64decode" ∷ codes "b64encode" ∷ []))
          (first_is is_constant args)
        ≡ true
      → Fabricates lower tree
  decode_sound line func nil keywords o h = absurd (
      cc (
        (both_inv (is_called (call_name func) (codes "b64decode" ∷ codes "b64encode" ∷ [])) false
          h).1))
  decode_sound line func (cons x args) keywords o h =
      let (named, first) =
        both_inv (is_called (call_name func) (codes "b64decode" ∷ codes "b64encode" ∷ []))
          (is_constant x) h in
      let (id, e, i) =
        is_called_inv (call_name func) (codes "b64decode" ∷ codes "b64encode" ∷ []) named in
      let (c, q) = first_constant x first in
      decodes_constant
        (subst (λ (y : Node). Occurs (call line func (cons y args) keywords) tree) q o) e i

  pub fabricated_bytes_sound :
      (x : Node) (v : Violation) → Occurs x tree → In v (fabricated_bytes x) → Fabricates lower tree
  unfolding fabricated_bytes
  fabricated_bytes_sound (call line func args keywords) v o m =
      let built =
        both (is_called (call_name func) (codes "bytes" ∷ [])) (first_is is_list_display args) in
      let decoded =
        both (is_called (call_name func) (codes "b64decode" ∷ codes "b64encode" ∷ []))
          (first_is is_constant args) in
      elim (In-append v (when built (bytes_literal line)) (when decoded (decoded_constant line))
        m) [
          | inl l ↦ bytes_sound line func args keywords o (when_inv built (bytes_literal line) v l)
          | inr r ↦
              decode_sound line func args keywords o (when_inv decoded (decoded_constant line) v r)
        ]
  fabricated_bytes_sound _ v o m = absurd m

  is_data_inv : (arg : Option Text) → is_data arg ≡ true → arg ≡ some (codes "data")
  is_data_inv none h = absurd (cc h)
  is_data_inv (some arg) h = ap (λ (s : Text). some s) ((text_eq_iff arg (codes "data")).0 h)

  literal_data_sound :
      (line : ℕ) (func : Node) (args keywords : Nodes)
      → Occurs (call line func args keywords) tree
      → call_name func ≡ some (codes "ArtifactResult")
      → (k : Node) → In k (items keywords)
      → is_literal_data k ≡ true
      → Fabricates lower tree
  literal_data_sound line func args keywords o e (keyword arg value) i h =
      let (d, a) = both_inv (is_data arg) (is_authored_literal value) h in
      writes_artifact o e
        (subst (λ (s : Option Text). In (keyword s value) (items keywords)) (is_data_inv arg d) i)
        (Authored-sound value a)
  literal_data_sound line func args keywords o e _ i h = absurd (cc h)

  artifact_sound :
      (x : Node) (v : Violation)
      → Occurs x tree
      → In v (artifact_violations x)
      → Fabricates lower tree
  unfolding artifact_violations
  artifact_sound (call line func args keywords) v o m =
      made (is_called (call_name func) (codes "ArtifactResult" ∷ [])) refl m
    where
      made :
          (b : Bool)
          → is_called (call_name func) (codes "ArtifactResult" ∷ []) ≡ b
          → In v (if_called b line keywords)
          → Fabricates lower tree
      made true e n =
          let (k, i, j) = In-concat_map (literal_keyword line) v (items keywords) n in
          literal_data_sound line func args keywords o
            (is_called_one (call_name func) (codes "ArtifactResult") e) k i
            (when_inv (is_literal_data k) (artifact_literal line) v j)
      made false e n = absurd n
  artifact_sound _ v o m = absurd m

  result_sound :
      (x : Node) (v : Violation)
      → Occurs x tree
      → In v (result_violations x)
      → Fabricates lower tree
  unfolding result_violations
  result_sound (function_def line id parts returns params) v o m =
      produced (produces_adapter_result id returns) refl m
    where
      whole : Node
      whole = function_def line id parts returns params

      written :
          (inner : Node)
          → produces_adapter_result id returns ≡ true
          → Occurs inner whole
          → In v (literal_return id inner)
          → Fabricates lower tree
      written (return_value line value) e i j =
          writes_result o (Produces-sound id returns e) i (
            Authored-sound value
              (when_inv (is_authored_literal value) (literal_result line id) v j))
      written _ e i j = absurd j

      produced :
          (b : Bool)
          → produces_adapter_result id returns ≡ b
          → In v (if_produces b id whole)
          → Fabricates lower tree
      produced true e n =
          let (inner, i, j) = In-concat_map (literal_return id) v (ast_walk whole) n in
          written inner e (ast_walk_sound whole inner i) j
      produced false e n = absurd n
  result_sound _ v o m = absurd m

  node_sound :
      (x : Node) (v : Violation)
      → Occurs x tree
      → In v (node_violations lower x)
      → Fabricates lower tree
  unfolding node_violations
  node_sound x v o m =
      let rest = artifact_violations x ++ result_violations x in
      elim (In-append v (except_violations x)
        (helper_violations lower x ++ (fabricated_bytes x ++ rest)) m) [
          | inl a ↦ except_sound x v o a
          | inr n ↦ elim (In-append v (helper_violations lower x) (fabricated_bytes x ++ rest) n) [
            | inl b ↦ helper_sound x v o b
            | inr k ↦ elim (In-append v (fabricated_bytes x) rest k) [
              | inl c ↦ fabricated_bytes_sound x v o c
              | inr l ↦ elim (In-append v (artifact_violations x) (result_violations x) l) [
                | inl d ↦ artifact_sound x v o d
                | inr e ↦ result_sound x v o e
              ]
            ]
          ]
        ]

  -- Whatever the check reports of a tree, the tree fabricates.
  pub tree_violations_sound :
      (v : Violation) → In v (tree_violations lower tree) → Fabricates lower tree
  unfolding tree_violations
  tree_violations_sound v m =
      let (x, i, j) = In-concat_map (node_violations lower) v (ast_walk tree) m in
      node_sound x v (ast_walk_sound tree x i) j
