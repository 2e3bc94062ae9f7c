-- ===== src/Artifact/Key.antt =====
-- `_validated_generated_output_prefix`, `_safe_object_key_segment` and `_safe_artifact_suffix` of
-- python/adapters/common.py. `str.isalnum` goes by the Unicode tables of the Python runtime, so it
-- is a parameter.
pub mod Safe
pub mod Prefix
use infernix.Prelude.{
  ℕ, Bool, true, false, Option, none, some, List, [], ◌∷◌, ◌++◌, map, ◌||◌, ◌&&◌, not, ltb, ◌==◌,
  length, if◌then◌else◌,
}
use infernix.Prelude.Text.{
  Text, codes, is_set, starts_with, ends_with, contains_text, has_char, lstrip, rstrip, text_or,
}

-- The two errors of `_validated_generated_output_prefix`.
pub data PrefixError : Type 0 where
  prefix_missing prefix_invalid : PrefixError

pub data Checked : Type 0 where
  accepted : Text → Checked
  refused : PrefixError → Checked

-- The condition of the second error.
unfoldable pub is_bad_prefix : Text → Bool
is_bad_prefix prefix =
    not (starts_with prefix (codes "users/"))
    || not (contains_text prefix (codes "/contexts/"))
    || not (ends_with prefix (codes "/generated/"))
    || contains_text prefix (codes "..")
    || contains_text prefix (codes "//")

unfoldable pub validated_generated_output_prefix : Text → Checked
validated_generated_output_prefix prefix =
    if not (is_set prefix)
    then refused prefix_missing
    else if is_bad_prefix prefix
    then refused prefix_invalid
    else accepted prefix

abbrev pub is_dash : ℕ → Bool
is_dash c = c == b'-'

module _ (is_alnum : ℕ → Bool) where
  unfoldable pub is_kept : ℕ → Bool
  is_kept c = is_alnum c || has_char c (codes "._-")

  -- The generator expression that both functions map over their text.
  unfoldable pub sanitized : Text → Text
  sanitized value = map (λ c. if is_kept c then c else b'-') value

  unfoldable pub safe_object_key_segment : Text → Text
  safe_object_key_segment value =
      text_or (rstrip is_dash (lstrip is_dash (sanitized value))) (codes "artifact")

  unfoldable pub safe_artifact_suffix : Text → Text
  safe_artifact_suffix value =
      let suffix = if starts_with value (codes ".") then value else codes "." ++ value in
      let safe = sanitized suffix in
      if starts_with safe (codes ".") && ltb 1 (length safe) then safe else codes ".bin"
