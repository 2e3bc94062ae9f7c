-- ===== src/Realness/Check/Decides.antt =====
-- What `_run_realness_ast_check` and `_run_native_runner_realness_check` of
-- python/adapters/common.py conclude of a set of files.
use infernix.Prelude.{
  ◌≡◌, ◌↔◌, inl, inr, refl, ap, sym, ◌∙◌, Option, none, some, List, [], ◌∷◌, ◌++◌, In, In-append,
  In-append_left, In-append_right, In-concat_map, concat_map-In, concat_map, All,
}
use infernix.Prelude.Text.{Text}
use infernix.Realness.Syntax.{Node, ast_walk}
use infernix.Realness.Check.{
  Violation, except_violations, helper_violations, fabricated_bytes, artifact_violations,
  result_violations, node_violations, tree_violations, passed, refused, SourceFile, conclude,
  by_file, then_files, files_violations, verdict_of, run_realness_ast_check,
  run_native_runner_realness_check,
}
use infernix.Realness.Check.Fabricates.{Fabricates}
use infernix.Realness.Check.Reports.{tree_violations_sound}
use infernix.Realness.Check.Complete.{tree_violations_complete}

-- The file parses, and its tree has nothing in it that fabricates.
abbrev pub IsReal : (Text → Option Node) → (Text → Text) → SourceFile → Type 0
IsReal parse lower f = (tree : Node) × (parse f.source ≡ some tree) × ¬ Fabricates lower tree

-- The file parses, and its tree fabricates.
abbrev pub IsFabricated : (Text → Option Node) → (Text → Text) → SourceFile → Type 0
IsFabricated parse lower f = (tree : Node) × (parse f.source ≡ some tree) × Fabricates lower tree

append_nil : {A : Type 0} → (xs ys : List A) → xs ++ ys ≡ [] → (xs ≡ []) × (ys ≡ [])
append_nil [] ys e = (refl, e)
append_nil (x ∷ xs) ys e = absurd (cc e)

nothing_In : {A : Type 0} → (xs : List A) → ((a : A) → In a xs → ⊥) → xs ≡ []
nothing_In [] h = refl
nothing_In (x ∷ xs) h = absurd (h x (inl refl))

conclude-refused : {A : Type 0} → (xs vs : List A) → conclude xs ≡ refused vs → xs ≡ vs
conclude-refused [] vs e = absurd (cc e)
conclude-refused (x ∷ xs) vs e = cc e

conclude_passed : {A : Type 0} → (xs : List A) → conclude xs ≡ passed → xs ≡ []
conclude_passed [] e = refl
conclude_passed (x ∷ xs) e = absurd (cc e)

verdict_refused :
    (o : Option (List (Text × Violation))) (vs : List (Text × Violation))
    → verdict_of o ≡ refused vs
    → o ≡ some vs
verdict_refused none vs e = absurd (cc e)
verdict_refused (some xs) vs e =
    ap (λ (ys : List (Text × Violation)). some ys) (conclude-refused xs vs e)

verdict_passed : (o : Option (List (Text × Violation))) → verdict_of o ≡ passed → o ≡ some []
verdict_passed none e = absurd (cc e)
verdict_passed (some xs) e = ap (λ (ys : List (Text × Violation)). some ys) (conclude_passed xs e)

by_file-In :
    (file : Text) (w : Text × Violation) (vs : List Violation)
    → In w (by_file file vs)
    → (w.0 ≡ file) × In (w.1) vs
by_file-In file w [] m = absurd m
by_file-In file w (v ∷ vs) (inl e) =
    (ap (λ (u : Text × Violation). u.0) e, inl (ap (λ (u : Text × Violation). u.1) e))
by_file-In file w (v ∷ vs) (inr m) = let (e, i) = by_file-In file w vs m in (e, inr i)

by_file_nil : (file : Text) (vs : List Violation) → by_file file vs ≡ [] → vs ≡ []
by_file_nil file [] e = refl
by_file_nil file (v ∷ vs) e = absurd (cc e)

then_files_inv :
    (o : Option Node) (check : Node → List Violation) (file : Text)
    (rest : Option (List (Text × Violation))) (vs : List (Text × Violation))
    → then_files o check file rest ≡ some vs
    → (tree : Node) × (more : List (Text × Violation)) × (o ≡ some tree)
      × (rest ≡ some more)
      × (by_file file (check tree) ++ more ≡ vs)
then_files_inv none check file rest vs e = absurd (cc e)
then_files_inv (some tree) check file none vs e = absurd (cc e)
then_files_inv (some tree) check file (some more) vs e = (tree, more, refl, refl, cc e)

module _ (parse : Text → Option Node) (check : Node → List Violation) where
  -- Where a violation comes from.
  files_blamed :
      (files : List SourceFile) (vs : List (Text × Violation)) (w : Text × Violation)
      → files_violations parse check files ≡ some vs
      → In w vs
      → (f : SourceFile) × In f files
        × (w.0 ≡ f.file_name)
        × (tree : Node) × (parse f.source ≡ some tree)
        × In (w.1) (check tree)
  unfolding files_violations
  files_blamed [] [] w e m = absurd m
  files_blamed [] (v ∷ vs) w e m = absurd (cc e)
  files_blamed (f ∷ files) vs w e m =
      let (tree, more, p, r, q) =
        then_files_inv (parse f.source) check f.file_name (files_violations parse check files) vs
          e in
      elim (In-append w (by_file f.file_name (check tree)) more (rw (sym q) at m)) [
        | inl l ↦
            let (same, i) = by_file-In f.file_name w (check tree) l in
            (f, inl refl, same, tree, p, i)
        | inr n ↦
            let (g, i, rest, t, p', j) = files_blamed files more w r n in (g, inr i, rest, t, p', j)
      ]

  -- No violation in any file.
  files_clean :
      (files : List SourceFile)
      → files_violations parse check files ≡ some []
      → All
          (λ (f : SourceFile). (tree : Node) × (parse f.source ≡ some tree) × (check tree ≡ []))
          files
  unfolding files_violations
  files_clean [] e = tt
  files_clean (f ∷ files) e =
      let (tree, more, p, r, q) =
        then_files_inv (parse f.source) check f.file_name (files_violations parse check files) []
          e in
      let (here, there) = append_nil (by_file f.file_name (check tree)) more q in
      (
        (tree, p, by_file_nil f.file_name (check tree) here),
        files_clean files (r ∙ ap (λ (ys : List (Text × Violation)). some ys) there),
      )

  clean_files :
      (files : List SourceFile)
      → All
          (λ (f : SourceFile). (tree : Node) × (parse f.source ≡ some tree) × (check tree ≡ []))
          files
      → files_violations parse check files ≡ some []
  unfolding files_violations
  clean_files [] h = refl
  clean_files (f ∷ files) ((tree, p, c), rest) = rw p (rw (clean_files files rest) (rw c refl))

map_All :
    {A : Type 0} → (P Q : A → Type 0) (xs : List A) → ((a : A) → P a → Q a) → All P xs → All Q xs
map_All P Q [] h all = tt
map_All P Q (x ∷ xs) h all = (h x all.0, map_All P Q xs h all.1)

module _ (parse : Text → Option Node) (lower : Text → Text) where
  abbrev IsClean : SourceFile → Type 0
  IsClean f = (tree : Node) × (parse f.source ≡ some tree) × (tree_violations lower tree ≡ [])

  clean-IsReal : (f : SourceFile) → IsClean f → IsReal parse lower f
  clean-IsReal f (tree, p, c) =
      (tree, p, λ x. let (v, i) = tree_violations_complete lower tree x in no v i)
    where
      no : (v : Violation) → In v (tree_violations lower tree) → ⊥
      no v i = rw c at i

  real-IsClean : (f : SourceFile) → IsReal parse lower f → IsClean f
  real-IsClean f (tree, p, n) = (
    tree,
    p,
    nothing_In (tree_violations lower tree) (λ v i. n (tree_violations_sound lower tree v i)),
  )

  -- The check returns exactly when every file parses and none of them contains one of the
  -- fabrication patterns that it is to reject.
  pub passes_iff_IsReal :
      (files : List SourceFile)
      → run_realness_ast_check parse lower files ≡ passed ↔ All (IsReal parse lower) files
  unfolding run_realness_ast_check
  passes_iff_IsReal files = (
    λ e. map_All IsClean (IsReal parse lower) files clean-IsReal (
        files_clean parse (tree_violations lower) files
          (verdict_passed (files_violations parse (tree_violations lower) files) e)),
    λ h.
        rw
          (clean_files parse (tree_violations lower) files
            (map_All (IsReal parse lower) IsClean files real-IsClean h))
          refl,
  )

  -- Where the check raises with violations, each of them names a file that it was given, whose
  -- tree contains one of the fabrication patterns.
  pub refusal_blames_fabrication :
      (files : List SourceFile) (vs : List (Text × Violation)) (w : Text × Violation)
      → run_realness_ast_check parse lower files ≡ refused vs
      → In w vs
      → (f : SourceFile) × In f files × (w.0 ≡ f.file_name) × IsFabricated parse lower f
  unfolding run_realness_ast_check
  refusal_blames_fabrication files vs w e m =
      let (f, i, same, tree, p, j) =
        files_blamed parse (tree_violations lower) files vs w
          (verdict_refused (files_violations parse (tree_violations lower) files) vs e) m in
      (f, i, same, (tree, p, tree_violations_sound lower tree (w.1) j))

  bytes-In-node :
      (x : Node) (v : Violation) → In v (fabricated_bytes x) → In v (node_violations lower x)
  unfolding node_violations
  bytes-In-node x v i =
      In-append_right v (except_violations x)
        (helper_violations lower x
          ++ (fabricated_bytes x ++ (artifact_violations x ++ result_violations x)))
        (In-append_right v (helper_violations lower x)
          (fabricated_bytes x ++ (artifact_violations x ++ result_violations x))
          (In-append_left v (fabricated_bytes x) (artifact_violations x ++ result_violations x) i))

  clean_bytes :
      (tree : Node)
      → tree_violations lower tree ≡ []
      → concat_map fabricated_bytes (ast_walk tree) ≡ []
  unfolding tree_violations
  clean_bytes tree c = nothing_In (concat_map fabricated_bytes (ast_walk tree)) (λ v i.
      let (x, j, k) = In-concat_map fabricated_bytes v (ast_walk tree) i in
      let found =
        concat_map-In (node_violations lower) v x (ast_walk tree) j (bytes-In-node x v k) in
      rw c at found)

  -- Files that the adapters' check passes, the check of the native runners passes too.
  pub real_passes_runner_check :
      (files : List SourceFile)
      → run_realness_ast_check parse lower files ≡ passed
      → run_native_runner_realness_check parse files ≡ passed
  unfolding run_realness_ast_check run_native_runner_realness_check
  real_passes_runner_check files e =
      rw
        (clean_files parse (λ (tree : Node). concat_map fabricated_bytes (ast_walk tree)) files
          (map_All IsClean
            (λ (f : SourceFile).
              (tree : Node) × (parse f.source ≡ some tree)
              × (concat_map fabricated_bytes (ast_walk tree) ≡ []))
            files (λ f (tree, p, c). (tree, p, clean_bytes tree c))
            (files_clean parse (tree_violations lower) files
              (verdict_passed (files_violations parse (tree_violations lower) files) e))))
        refl
