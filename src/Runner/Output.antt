-- ===== src/Runner/Output.antt =====
-- `_require_nonempty_output` of python/native-runners/apple_native_runner.py. The file system is an
-- argument; paths are given by their parts.
use infernix.Prelude.{
  ℕ, ◌<◌, ◌≡◌, refl, sym, Bool, true, false, not, ◌&&◌, Option, none, some, List, [], ◌∷◌, ◌++◌,
  ltb, ltb→lt,
}
use infernix.Prelude.Text.{Text, text_eq, text_eq_iff}
use infernix.Runner.{
  output_symlink, artifact_outside, artifact_symlink, artifact_escapes, artifact_missing,
  artifact_empty, Ended, returned, failed, Done, done, and_then, and_then_inv, require, require_inv,
}
use infernix.Runner.Smoke.{path_is_under}

abbrev pub Parts : Type 0
Parts = List Text

pub record Filesystem : Type 0 where
  pub is_symlink : Parts → Bool
  pub absolute : Parts → Parts
  pub resolve : Parts → Parts
  pub size : Parts → Option ℕ
  pub is_regular : Parts → Bool

abbrev after_part : Bool → Option Parts → Option Parts
after_part true rest = rest
after_part false rest = none

-- `path.relative_to(root)`; `none` is its `ValueError`.
unfoldable pub relative_to : Parts → Parts → Option Parts
relative_to path [] = some path
relative_to [] (r ∷ root) = none
relative_to (p ∷ path) (r ∷ root) = after_part (text_eq p r) (relative_to path root)

-- The loop over the parts of the artifact, from the directory above them.
unfoldable pub check_parts : (Parts → Bool) → Parts → Parts → Ended Done
check_parts is_symlink current [] = returned done
check_parts is_symlink current (component ∷ parts) =
    and_then (require (not (is_symlink (current ++ (component ∷ [])))) artifact_symlink 70)
      (λ u. check_parts is_symlink (current ++ (component ∷ [])) parts)

abbrev relative_or_outside : Option Parts → Ended Parts
relative_or_outside none = failed artifact_outside 70
relative_or_outside (some parts) = returned parts

abbrev size_or_missing : Option ℕ → Ended ℕ
size_or_missing none = failed artifact_missing 70
size_or_missing (some n) = returned n

unfoldable pub require_nonempty_output : Filesystem → Parts → Parts → Ended Parts
unfolding relative_to check_parts
require_nonempty_output fs output_dir artifact_path =
    and_then (require (not (fs.is_symlink output_dir)) output_symlink 70) (λ a.
      and_then
        (relative_or_outside (relative_to (fs.absolute artifact_path) (fs.absolute output_dir)))
        (λ relative_artifact.
          and_then (check_parts fs.is_symlink (fs.absolute output_dir) relative_artifact) (λ b.
            and_then
              (require (path_is_under (fs.resolve artifact_path) (fs.resolve output_dir))
                artifact_escapes 70)
              (λ c.
                and_then (size_or_missing (fs.size (fs.resolve artifact_path))) (λ artifact_size.
                  and_then
                    (require (fs.is_regular (fs.resolve artifact_path) && ltb 0 artifact_size)
                      artifact_empty 70)
                    (λ d. returned (fs.resolve artifact_path)))))))

-- No step of the way from `current` along `parts` is a symbolic link.
abbrev pub IsDirect : (Parts → Bool) → Parts → Parts → Type 0
IsDirect is_symlink current [] = Done
IsDirect is_symlink current (component ∷ parts) =
    (is_symlink (current ++ (component ∷ [])) ≡ false)
    × IsDirect is_symlink (current ++ (component ∷ [])) parts

not-true : (b : Bool) → not b ≡ true → b ≡ false
not-true true h = absurd (cc h)
not-true false h = refl

and_inv : (a b : Bool) → (a && b) ≡ true → (a ≡ true) × (b ≡ true)
and_inv true b h = (refl, h)
and_inv false b h = absurd (cc h)

check_parts-IsDirect :
    (is_symlink : Parts → Bool) (current parts : Parts) (u : Done)
    → check_parts is_symlink current parts ≡ returned u
    → IsDirect is_symlink current parts
unfolding check_parts
check_parts-IsDirect is_symlink current [] u h = done
check_parts-IsDirect is_symlink current (component ∷ parts) u h =
    let linked = is_symlink (current ++ (component ∷ [])) in
    let (v, e, rest) = and_then_inv (require (not linked) artifact_symlink 70) _ u h in
    (
      not-true linked (require_inv (not linked) artifact_symlink 70 v e),
      check_parts-IsDirect is_symlink (current ++ (component ∷ [])) parts u rest,
    )

after_part_inv :
    (b : Bool) (rest : Option Parts) (parts : Parts)
    → after_part b rest ≡ some parts
    → (b ≡ true) × (rest ≡ some parts)
after_part_inv true rest parts h = (refl, h)
after_part_inv false rest parts h = absurd (cc h)

relative_to_inv :
    (path root parts : Parts) → relative_to path root ≡ some parts → path ≡ root ++ parts
unfolding relative_to
relative_to_inv path [] parts h = cc h
relative_to_inv [] (r ∷ root) parts h = absurd (cc h)
relative_to_inv (p ∷ path) (r ∷ root) parts h =
    let (same, rest) = after_part_inv (text_eq p r) (relative_to path root) parts h in
    let e = (text_eq_iff p r).0 same in let f = relative_to_inv path root parts rest in cc (e, f)

outside_inv :
    (o : Option Parts) (parts : Parts) → relative_or_outside o ≡ returned parts → o ≡ some parts
outside_inv none parts h = absurd (cc h)
outside_inv (some other) parts h = cc h

missing_inv : (o : Option ℕ) (n : ℕ) → size_or_missing o ≡ returned n → o ≡ some n
missing_inv none n h = absurd (cc h)
missing_inv (some other) n h = cc h

-- An artifact is accepted only where it lies below the output directory, as written and as
-- resolved, no step of the way to it is a symbolic link, the directory is none either, and it is a
-- regular file with at least one byte; the resolved path is what is returned.
pub accepted_output :
    (fs : Filesystem) (output_dir artifact_path path : Parts)
    → require_nonempty_output fs output_dir artifact_path ≡ returned path
    → (path ≡ fs.resolve artifact_path)
      × (fs.is_symlink output_dir ≡ false)
      × ((parts : Parts) × (fs.absolute artifact_path ≡ fs.absolute output_dir ++ parts)
          × IsDirect fs.is_symlink (fs.absolute output_dir) parts)
      × (path_is_under (fs.resolve artifact_path) (fs.resolve output_dir) ≡ true)
      × (fs.is_regular (fs.resolve artifact_path) ≡ true)
      × ((n : ℕ) × (fs.size (fs.resolve artifact_path) ≡ some n) × 0 < n)
unfolding require_nonempty_output
accepted_output fs output_dir artifact_path path h =
    let linked = fs.is_symlink output_dir in
    let found = relative_to (fs.absolute artifact_path) (fs.absolute output_dir) in
    let under = path_is_under (fs.resolve artifact_path) (fs.resolve output_dir) in
    let regular = fs.is_regular (fs.resolve artifact_path) in
    let (a, h1, g1) = and_then_inv (require (not linked) output_symlink 70) _ path h in
    let (parts, h2, g2) = and_then_inv (relative_or_outside found) _ path g1 in
    let (b, h3, g3) =
      and_then_inv (check_parts fs.is_symlink (fs.absolute output_dir) parts) _ path g2 in
    let (c, h4, g4) = and_then_inv (require under artifact_escapes 70) _ path g3 in
    let (n, h5, g5) =
      and_then_inv (size_or_missing (fs.size (fs.resolve artifact_path))) _ path g4 in
    let (d, h6, g6) = and_then_inv (require (regular && ltb 0 n) artifact_empty 70) _ path g5 in
    let (is_file, positive) =
      and_inv regular (ltb 0 n) (require_inv (regular && ltb 0 n) artifact_empty 70 d h6) in
    (
      sym (same (fs.resolve artifact_path) g6),
      not-true linked (require_inv (not linked) output_symlink 70 a h1),
      (
        parts,
        relative_to_inv (fs.absolute artifact_path) (fs.absolute output_dir) parts
            (outside_inv found parts h2),
        check_parts-IsDirect fs.is_symlink (fs.absolute output_dir) parts b h3,
      ),
      require_inv under artifact_escapes 70 c h4,
      is_file,
      (n, missing_inv (fs.size (fs.resolve artifact_path)) n h5, ltb→lt 0 n positive),
    )
  where
    same : (p : Parts) → returned p ≡ returned path → p ≡ path
    same p e = cc e
