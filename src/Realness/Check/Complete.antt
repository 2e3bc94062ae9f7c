-- ===== src/Realness/Check/Complete.antt =====
-- That no fabrication pattern passes the tests of `_run_realness_ast_check` in
-- python/adapters/common.py.
use infernix.Prelude.{
  or_right, one_of-In, ℕ, ◌≡◌, refl, ap, sym, ◌∙◌, Bool, true, false, Option, some, List, [], ◌∷◌,
  ◌++◌, inl, inr, In, In-append_left, In-append_right, concat_map-In, any_of,
}
use infernix.Prelude.Text.{Text, codes, text_eq, text_eq_refl, contains_text}
use infernix.Realness.Syntax.{
  Constant, Node, constant, list_display, keyword, call, return_value, function_def, except_handler,
  Nodes, cons, Returns, items, ast_walk,
}
use infernix.Realness.Syntax.Occurs.{Occurs, ast_walk_complete}
use infernix.Realness.Check.{
  Violation, return_inside_except, helper_names_fabrication, bytes_literal, decoded_constant,
  artifact_literal, literal_result, forbidden_helper_fragments, masked_return, except_violations,
  is_fabrication_name, when, helper_violations, call_name, is_called, both, fabricated_bytes,
  is_authored_literal, is_literal_data, literal_keyword, if_called, artifact_violations,
  produces_adapter_result, literal_return, if_produces, result_violations, node_violations,
  tree_violations,
}
use infernix.Realness.Check.Fabricates.{
  Fabricates, masks_failure, names_fabrication, builds_bytes, decodes_constant, writes_artifact,
  writes_result, Authored-complete, Produces-complete,
}

pub when-true : {A : Type 0} → (b : Bool) (v : A) → b ≡ true → In v (when b v)
when-true true v e = inl refl
when-true false v e = absurd (cc e)

both-true : (a b : Bool) → a ≡ true → b ≡ true → both a b ≡ true
both-true true b e h = h
both-true false b e h = absurd (cc e)

pub is_called-In :
    (o : Option Text) (id : Text) (ids : List Text)
    → o ≡ some id
    → In id ids
    → is_called o ids ≡ true
is_called-In o id ids e i = rw e (one_of-In id ids i)

pub any_of-true :
    {A : Type 0} → (p : A → Bool) (a : A) (xs : List A) → In a xs → p a ≡ true → any_of p xs ≡ true
any_of-true p a [] i h = absurd i
any_of-true p a (x ∷ xs) (inl e) h = rw (ap p (sym e) ∙ h) refl
any_of-true p a (x ∷ xs) (inr i) h = or_right (p x) (any_of p xs) (any_of-true p a xs i h)

module _ (lower : Text → Text) (tree : Node) where
  -- What a node reports, the check reports.
  abbrev Reported : Type 0
  Reported = (v : Violation) × In v (tree_violations lower tree)

  report : (x : Node) (v : Violation) → Occurs x tree → In v (node_violations lower x) → Reported
  unfolding tree_violations
  report x v o j =
      (v, concat_map-In (node_violations lower) v x (ast_walk tree) (ast_walk_complete tree x o) j)

  -- Past the first tests of a node.
  after_helper :
      (x : Node) (v : Violation)
      → In v (fabricated_bytes x ++ (artifact_violations x ++ result_violations x))
      → In v (node_violations lower x)
  unfolding node_violations
  after_helper x v i =
      In-append_right v (except_violations x)
        (helper_violations lower x
          ++ (fabricated_bytes x ++ (artifact_violations x ++ result_violations x)))
        (In-append_right v (helper_violations lower x)
          (fabricated_bytes x ++ (artifact_violations x ++ result_violations x)) i)

  masked_reported :
      {parts : Nodes} {line : ℕ} {value : Node}
      → Occurs (except_handler parts) tree
      → Occurs (return_value line value) (except_handler parts)
      → Reported
  unfolding node_violations except_violations
  masked_reported {parts} {line} {value} o i =
      report (except_handler parts) (return_inside_except line) o (
        In-append_left (return_inside_except line) (except_violations (except_handler parts))
          (helper_violations lower (except_handler parts)
            ++ (fabricated_bytes (except_handler parts)
                ++ (artifact_violations (except_handler parts)
                    ++ result_violations (except_handler parts))))
          (concat_map-In masked_return (return_inside_except line) (return_value line value)
            (ast_walk (except_handler parts))
            (ast_walk_complete (except_handler parts) (return_value line value) i) (inl refl)))

  named_reported :
      {line : ℕ} {id : Text} {parts : Nodes} {returns : Returns} {params : Nodes} {fragment : Text}
      → Occurs (function_def line id parts returns params) tree
      → In fragment forbidden_helper_fragments
      → contains_text (lower id) fragment ≡ true
      → Reported
  unfolding node_violations helper_violations except_violations
  named_reported {line} {id} {parts} {returns} {params} {fragment} o i h =
      let x = function_def line id parts returns params in
      report x (helper_names_fabrication line id) o (
        In-append_left (helper_names_fabrication line id) (helper_violations lower x)
          (fabricated_bytes x ++ (artifact_violations x ++ result_violations x))
          (when-true (is_fabrication_name lower id) (helper_names_fabrication line id) (
            any_of-true (λ (f : Text). contains_text (lower id) f) fragment
              forbidden_helper_fragments i h)))

  -- A call's two tests of its bytes.
  bytes_reported :
      {line : ℕ} {func : Node} {elts args keywords : Nodes}
      → Occurs (call line func (cons (list_display elts) args) keywords) tree
      → call_name func ≡ some (codes "bytes")
      → Reported
  unfolding fabricated_bytes
  bytes_reported {line} {func} {elts} {args} {keywords} o e =
      let x = call line func (cons (list_display elts) args) keywords in
      report x (bytes_literal line) o (
        after_helper x (bytes_literal line) (
          In-append_left (bytes_literal line) (fabricated_bytes x)
            (artifact_violations x ++ result_violations x)
            (In-append_left (bytes_literal line)
              (when (both (is_called (call_name func) (codes "bytes" ∷ [])) true)
                (bytes_literal line))
              (when
                (both (is_called (call_name func) (codes "b64decode" ∷ codes "b64encode" ∷ []))
                  false)
                (decoded_constant line))
              (when-true (both (is_called (call_name func) (codes "bytes" ∷ [])) true)
                (bytes_literal line)
                (both-true (is_called (call_name func) (codes "bytes" ∷ [])) true
                  (is_called-In (call_name func) (codes "bytes") (codes "bytes" ∷ []) e (inl refl))
                  refl)))))

  decoded_reported :
      {line : ℕ} {func : Node} {c : Constant} {args keywords : Nodes} {id : Text}
      → Occurs (call line func (cons (constant c) args) keywords) tree
      → call_name func ≡ some id
      → In id (codes "b64decode" ∷ codes "b64encode" ∷ [])
      → Reported
  unfolding fabricated_bytes
  decoded_reported {line} {func} {c} {args} {keywords} {id} o e i =
      let x = call line func (cons (constant c) args) keywords in
      let decoders = codes "b64decode" ∷ codes "b64encode" ∷ [] in
      report x (decoded_constant line) o (
        after_helper x (decoded_constant line) (
          In-append_left (decoded_constant line) (fabricated_bytes x)
            (artifact_violations x ++ result_violations x)
            (In-append_right (decoded_constant line)
              (when (both (is_called (call_name func) (codes "bytes" ∷ [])) false)
                (bytes_literal line))
              (when (both (is_called (call_name func) decoders) true) (decoded_constant line))
              (when-true (both (is_called (call_name func) decoders) true) (decoded_constant line) (
                both-true (is_called (call_name func) decoders) true
                  (is_called-In (call_name func) id decoders e i) refl)))))

  artifact_reported :
      (value : Node) {line : ℕ} {func : Node} {args keywords : Nodes}
      → Occurs (call line func args keywords) tree
      → call_name func ≡ some (codes "ArtifactResult")
      → In (keyword (some (codes "data")) value) (items keywords)
      → is_authored_literal value ≡ true
      → Reported
  unfolding artifact_violations
  artifact_reported value {line} {func} {args} {keywords} o e i a =
      let x = call line func args keywords in
      report x (artifact_literal line) o (
        after_helper x (artifact_literal line) (
          In-append_right (artifact_literal line) (fabricated_bytes x)
            (artifact_violations x ++ result_violations x)
            (In-append_left (artifact_literal line) (artifact_violations x) (result_violations x) (
              called (is_called (call_name func) (codes "ArtifactResult" ∷ [])) (
                is_called-In (call_name func) (codes "ArtifactResult") (codes "ArtifactResult" ∷ [])
                  e (inl refl))))))
    where
      called : (b : Bool) → b ≡ true → In (artifact_literal line) (if_called b line keywords)
      called true t =
          concat_map-In (literal_keyword line) (artifact_literal line)
            (keyword (some (codes "data")) value) (items keywords) i
            (when-true (is_literal_data (keyword (some (codes "data")) value))
              (artifact_literal line)
              (both-true (text_eq (codes "data") (codes "data")) (is_authored_literal value)
                (text_eq_refl (codes "data")) a))
      called false t = absurd (cc t)

  result_reported :
      {line : ℕ} {id : Text} {parts : Nodes} {returns : Returns} {params : Nodes} {at : ℕ}
      {value : Node}
      → Occurs (function_def line id parts returns params) tree
      → produces_adapter_result id returns ≡ true
      → Occurs (return_value at value) (function_def line id parts returns params)
      → is_authored_literal value ≡ true
      → Reported
  unfolding result_violations
  result_reported {line} {id} {parts} {returns} {params} {at} {value} o p i a =
      report whole (literal_result at id) o (
        after_helper whole (literal_result at id) (
          In-append_right (literal_result at id) (fabricated_bytes whole)
            (artifact_violations whole ++ result_violations whole)
            (In-append_right (literal_result at id) (artifact_violations whole)
              (result_violations whole) (produced (produces_adapter_result id returns) p))))
    where
      whole : Node
      whole = function_def line id parts returns params

      produced : (b : Bool) → b ≡ true → In (literal_result at id) (if_produces b id whole)
      produced true t =
          concat_map-In (literal_return id) (literal_result at id) (return_value at value)
            (ast_walk whole) (ast_walk_complete whole (return_value at value) i)
            (when-true (is_authored_literal value) (literal_result at id) a)
      produced false t = absurd (cc t)

  -- A tree that fabricates is reported.
  pub tree_violations_complete :
      Fabricates lower tree → (v : Violation) × In v (tree_violations lower tree)
  tree_violations_complete (masks_failure o i) = masked_reported o i
  tree_violations_complete (names_fabrication o i h) = named_reported o i h
  tree_violations_complete (builds_bytes o e) = bytes_reported o e
  tree_violations_complete (decodes_constant o e i) = decoded_reported o e i
  tree_violations_complete (writes_artifact {value = value} o e i a) =
      artifact_reported value o e i (Authored-complete value a)
  tree_violations_complete (writes_result {id = id} {returns = r} {value = value} o p i a) =
      result_reported o (Produces-complete id r p) i (Authored-complete value a)
