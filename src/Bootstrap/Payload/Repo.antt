-- ===== src/Bootstrap/Payload/Repo.antt =====
-- The repository that `_hugging_face_repo_id` of python/adapters/model_bootstrap.py reads off an
-- address.
use infernix.Prelude.{
  ℕ, ◌≡◌, refl, sym, Bool, true, false, ◌||◌, not, none, some, List, [], ◌∷◌, ◌++◌, All, All-append,
  ◌==◌, keep_if, Bool-cases, inl, inr, ltb, length, if◌then◌else◌,
}
use infernix.Prelude.Text.{Text, codes, is_set, one_of, join, text_eq}
use infernix.Bootstrap.Payload.{ParsedUrl, split_path, repo_of, hugging_face_repo_id}

-- A part of a path between two slashes, and not an empty one.
abbrev pub IsPart : Text → Type 0
IsPart part = (is_set part ≡ true) × All (λ (c : ℕ). (c == 47) ≡ false) part

abbrev IsFlat : Text → Type 0
IsFlat part = All (λ (c : ℕ). (c == 47) ≡ false) part

split_path-IsFlat : (acc path : Text) → IsFlat acc → All IsFlat (split_path acc path)
unfolding split_path
split_path-IsFlat acc [] h = (h, tt)
split_path-IsFlat acc (c ∷ path) h = elim (Bool-cases (c == 47)) [
  | inl slash ↦ rw slash (h, split_path-IsFlat [] path tt)
  | inr other ↦ rw other (
      split_path-IsFlat (acc ++ (c ∷ [])) path
        (All-append (λ (c : ℕ). (c == 47) ≡ false) acc (c ∷ []) h (other, tt)))
]

keep_if-IsPart : (parts : List Text) → All IsFlat parts → All IsPart (keep_if is_set parts)
keep_if-IsPart [] h = tt
keep_if-IsPart ([] ∷ parts) h = keep_if-IsPart parts h.1
keep_if-IsPart ((c ∷ part) ∷ parts) h = ((refl, h.0), keep_if-IsPart parts h.1)

-- `owner/name`, of two parts.
abbrev pub IsRepo : Text → Type 0
IsRepo repo_id =
    (owner name : Text) × (repo_id ≡ owner ++ (codes "/" ++ name)) × IsPart owner × IsPart name

repo_of-IsRepo :
    (parts : List Text) (repo_id : Text)
    → All IsPart parts
    → repo_of parts ≡ some repo_id
    → IsRepo repo_id
unfolding join
repo_of-IsRepo [] repo_id h e = absurd (cc e)
repo_of-IsRepo (a ∷ []) repo_id h e = absurd (cc e)
repo_of-IsRepo (a ∷ b ∷ rest) repo_id h e =
    pick (ltb (length (a ∷ b ∷ rest)) 2)
      (one_of (codes "resolve") (a ∷ b ∷ rest) || one_of (codes "blob") (a ∷ b ∷ rest)) e
  where
    pick :
        (short file : Bool)
        → (if short then none else (if file then none else some (a ++ (codes "/" ++ b))))
          ≡ some repo_id
        → IsRepo repo_id
    pick true file i = absurd (cc i)
    pick false true i = absurd (cc i)
    pick false false i = (a, b, sym (cc i), h.0, h.1.0)

-- An address that is taken for a repository of the hub is an http or https one of that host, and the
-- repository is `owner/name`, neither empty, neither with a slash in it.
pub hugging_face_repo_id-IsRepo :
    (urlparse : Text → ParsedUrl) (lower : Text → Text) (download_url repo_id : Text)
    → hugging_face_repo_id urlparse lower download_url ≡ some repo_id
    → (one_of (urlparse download_url).scheme (codes "http" ∷ codes "https" ∷ []) ≡ true)
      × (text_eq (lower (urlparse download_url).netloc) (codes "huggingface.co") ≡ true)
      × IsRepo repo_id
unfolding hugging_face_repo_id
hugging_face_repo_id-IsRepo urlparse lower download_url repo_id h =
    pick (one_of (urlparse download_url).scheme (codes "http" ∷ codes "https" ∷ []))
      (text_eq (lower (urlparse download_url).netloc) (codes "huggingface.co")) h
  where
    parts : List Text
    parts = keep_if is_set (split_path [] (urlparse download_url).path)

    pick :
        (web hub : Bool)
        → (if not web then none else (if not hub then none else repo_of parts)) ≡ some repo_id
        → (web ≡ true) × (hub ≡ true) × IsRepo repo_id
    pick false hub i = absurd (cc i)
    pick true false i = absurd (cc i)
    pick true true i = (
      refl,
      refl,
      repo_of-IsRepo parts repo_id
          (keep_if-IsPart (split_path [] (urlparse download_url).path)
            (split_path-IsFlat [] (urlparse download_url).path tt))
          i,
    )
