-- ===== src/Artifact/Key/Safe.antt =====
-- The generated segments hold only kept characters, are not empty, and are left alone if safe.
use infernix.Prelude.{
  ℕ, ◌<◌, ◌≤◌, ◌≡◌, refl, ap, subst, Bool, true, false, [], ◌∷◌, ◌++◌, ◌&&◌, ltb, length, arith,
  if◌then◌else◌, All, Bool-cases, inl, inr,
}
use infernix.Prelude.Text.{Text, codes, starts_with, has_char, lstrip, rstrip, text_or, is_set}
use infernix.Artifact.Key.{
  is_dash, is_kept, sanitized, safe_object_key_segment, safe_artifact_suffix,
}

All-lstrip : (P : ℕ → Type 0) (p : ℕ → Bool) (s : Text) → All P s → All P (lstrip p s)
unfolding lstrip
All-lstrip P p [] h = tt
All-lstrip P p (c ∷ s) h = elim (Bool-cases (p c)) [
  | inl y ↦ rw (y, lstrip) (All-lstrip P p s h.1)
  | inr n ↦ rw (n, lstrip) h
]

All-rstrip : (P : ℕ → Type 0) (p : ℕ → Bool) (s : Text) → All P s → All P (rstrip p s)
unfolding rstrip
All-rstrip P p [] h = tt
All-rstrip P p (c ∷ s) h = step (rstrip p s) refl (All-rstrip P p s h.1)
  where
    step : (r : Text) → rstrip p s ≡ r → All P r → All P (rstrip p (c ∷ s))
    step [] e k = elim (Bool-cases (p c)) [
      | inl y ↦ rw (e, rstrip, y) tt
      | inr n ↦ rw (e, rstrip, n) (h.0, tt)
    ]
    step (d ∷ r) e k = rw (e, rstrip) (h.0, k)

-- A stripped text does not begin with a stripped character.
abbrev pub NoHead : (ℕ → Bool) → Text → Type 0
NoHead p [] = Unit
NoHead p (c ∷ s) = p c ≡ false

-- Nor does it end with one.
abbrev pub NoLast : (ℕ → Bool) → Text → Type 0
NoLast p [] = Unit
NoLast p (c ∷ []) = p c ≡ false
NoLast p (c ∷ d ∷ s) = NoLast p (d ∷ s)

lstrip-NoHead : (p : ℕ → Bool) (s : Text) → NoHead p (lstrip p s)
unfolding lstrip
lstrip-NoHead p [] = tt
lstrip-NoHead p (c ∷ s) = elim (Bool-cases (p c)) [
  | inl y ↦ rw (y, lstrip) (lstrip-NoHead p s)
  | inr n ↦ rw (n, lstrip) n
]

rstrip-NoHead : (p : ℕ → Bool) (s : Text) → NoHead p s → NoHead p (rstrip p s)
unfolding rstrip
rstrip-NoHead p [] h = tt
rstrip-NoHead p (c ∷ s) h = step (rstrip p s) refl
  where
    step : (r : Text) → rstrip p s ≡ r → NoHead p (rstrip p (c ∷ s))
    step [] e = rw (e, rstrip, h) h
    step (d ∷ r) e = rw (e, rstrip) h

rstrip-NoLast : (p : ℕ → Bool) (s : Text) → NoLast p (rstrip p s)
unfolding rstrip
rstrip-NoLast p [] = tt
rstrip-NoLast p (c ∷ s) = step (rstrip p s) refl (rstrip-NoLast p s)
  where
    step : (r : Text) → rstrip p s ≡ r → NoLast p r → NoLast p (rstrip p (c ∷ s))
    step [] e k = elim (Bool-cases (p c)) [
      | inl y ↦ rw (e, rstrip, y) tt
      | inr n ↦ rw (e, rstrip, n) n
    ]
    step (d ∷ r) e k = rw (e, rstrip) k

module _ (is_alnum : ℕ → Bool) where
  abbrev pub IsKept : ℕ → Type 0
  IsKept c = is_kept is_alnum c ≡ true

  dash_kept : is_kept is_alnum b'-' ≡ true
  unfolding is_kept has_char
  dash_kept = ground arith

  sanitized-IsKept : (s : Text) → All IsKept (sanitized is_alnum s)
  unfolding sanitized
  sanitized-IsKept [] = tt
  sanitized-IsKept (c ∷ s) = (kept_one, sanitized-IsKept s)
    where
      kept_one : IsKept (if is_kept is_alnum c then c else b'-')
      kept_one = elim (Bool-cases (is_kept is_alnum c)) [ inl y ↦ rw y y | inr n ↦ rw n dash_kept ]

  sanitized_id : (s : Text) → All IsKept s → sanitized is_alnum s ≡ s
  unfolding sanitized
  sanitized_id [] h = refl
  sanitized_id (c ∷ s) h = rw (h.0) (ap (λ (t : Text). c ∷ t) (sanitized_id s h.1))

lstrip_id : (p : ℕ → Bool) (s : Text) → NoHead p s → lstrip p s ≡ s
unfolding lstrip
lstrip_id p [] h = refl
lstrip_id p (c ∷ s) h = rw (h, lstrip) refl

rstrip_id : (p : ℕ → Bool) (s : Text) → NoLast p s → rstrip p s ≡ s
unfolding rstrip
rstrip_id p [] h = refl
rstrip_id p (c ∷ []) h = rw (h, rstrip) refl
rstrip_id p (c ∷ d ∷ s) h = rw (rstrip_id p (d ∷ s) h, rstrip) refl

-- What the code relies on in `str.isalnum`: small letters are alphanumeric, a slash is not.
pub record IsAlnum (is_alnum : ℕ → Bool) : Type 0 where
  pub letters : (c : ℕ) → b'a' ≤ c → c ≤ b'z' → is_alnum c ≡ true
  pub slash : is_alnum b'/' ≡ false

-- Safe as one segment of a key: not empty, only kept characters, no dash at either end.
abbrev pub IsSafe : (ℕ → Bool) → Text → Type 0
IsSafe is_alnum s =
    (is_set s ≡ true) × All (λ c. is_kept is_alnum c ≡ true) s × NoHead is_dash s × NoLast is_dash s

module _ (is_alnum : ℕ → Bool) (laws : IsAlnum is_alnum) where
  letter : (c : ℕ) → b'a' ≤ c → c ≤ b'z' → is_kept is_alnum c ≡ true
  unfolding is_kept
  letter c low high = rw (laws.letters c low high)

  artifact-IsSafe : IsSafe is_alnum (codes "artifact")
  artifact-IsSafe = (
    refl,
    (
      letter _ (omega arith) (omega arith),
      (
        letter _ (omega arith) (omega arith),
        (
          letter _ (omega arith) (omega arith),
          (
            letter _ (omega arith) (omega arith),
            (
              letter _ (omega arith) (omega arith),
              (
                letter _ (omega arith) (omega arith),
                (letter _ (omega arith) (omega arith), (letter _ (omega arith) (omega arith), tt)),
              ),
            ),
          ),
        ),
      ),
    ),
    refl,
    refl,
  )

  -- Where the ASCII letters are alphanumeric and the slash is not: whatever the family or the model
  -- id is, its segment of the object key is safe.
  pub safe_object_key_segment-IsSafe :
      (value : Text) → IsSafe is_alnum (safe_object_key_segment is_alnum value)
  unfolding safe_object_key_segment
  safe_object_key_segment-IsSafe value = pick stripped refl
    where
      stripped : Text
      stripped = rstrip is_dash (lstrip is_dash (sanitized is_alnum value))

      pick : (s : Text) → stripped ≡ s → IsSafe is_alnum (text_or s (codes "artifact"))
      pick [] e = artifact-IsSafe
      pick (c ∷ s) e = (
        refl,
        subst (All (IsKept is_alnum)) e (
            All-rstrip (IsKept is_alnum) is_dash (lstrip is_dash (sanitized is_alnum value)) (
              All-lstrip (IsKept is_alnum) is_dash (sanitized is_alnum value)
                (sanitized-IsKept is_alnum value))),
        subst (NoHead is_dash) e (
            rstrip-NoHead is_dash (lstrip is_dash (sanitized is_alnum value))
              (lstrip-NoHead is_dash (sanitized is_alnum value))),
        subst (NoLast is_dash) e
            (rstrip-NoLast is_dash (lstrip is_dash (sanitized is_alnum value))),
      )

  safe_segment_id : (s : Text) → IsSafe is_alnum s → safe_object_key_segment is_alnum s ≡ s
  unfolding safe_object_key_segment
  safe_segment_id [] (set, kept, first, last) = cc set
  safe_segment_id (c ∷ s) (set, kept, first, last) = rw (
    sanitized_id is_alnum (c ∷ s) kept,
    lstrip_id is_dash (c ∷ s) first,
    rstrip_id is_dash (c ∷ s) last,
  )

  -- Where the ASCII letters are alphanumeric and the slash is not: making a segment safe twice is
  -- making it safe once.
  pub safe_object_key_segment_idem :
      (value : Text)
      → safe_object_key_segment is_alnum (safe_object_key_segment is_alnum value)
        ≡ safe_object_key_segment is_alnum value
  safe_object_key_segment_idem value =
      safe_segment_id (safe_object_key_segment is_alnum value)
        (safe_object_key_segment-IsSafe value)

  dot_kept : is_kept is_alnum b'.' ≡ true
  unfolding is_kept has_char
  dot_kept = ground arith

  bin_starts : starts_with (codes ".bin") (codes ".") ≡ true
  unfolding starts_with
  bin_starts = refl

  bin_kept : All (λ c. is_kept is_alnum c ≡ true) (codes ".bin")
  bin_kept = (
    dot_kept,
    (
      letter _ (omega arith) (omega arith),
      (letter _ (omega arith) (omega arith), (letter _ (omega arith) (omega arith), tt)),
    ),
  )

  -- Where the ASCII letters are alphanumeric and the slash is not: an artifact suffix begins with a
  -- dot, has more than the dot, and holds only kept characters.
  pub safe_artifact_suffix_safe :
      (value : Text)
      → let suffix = safe_artifact_suffix is_alnum value in
        (starts_with suffix (codes ".") ≡ true)
        × (1 < length suffix)
        × All (λ c. is_kept is_alnum c ≡ true) suffix
  unfolding safe_artifact_suffix
  safe_artifact_suffix_safe value =
      pick (if starts_with value (codes ".") then value else codes "." ++ value)
    where
      pick :
          (suffix : Text)
          → let safe = sanitized is_alnum suffix in
            let r =
              if starts_with safe (codes ".") && ltb 1 (length safe) then safe else codes ".bin" in
            (starts_with r (codes ".") ≡ true)
            × (1 < length r)
            × All (λ c. is_kept is_alnum c ≡ true) r
      pick suffix =
          elim (Bool-cases (
            starts_with (sanitized is_alnum suffix) (codes ".")
            && ltb 1 (length (sanitized is_alnum suffix)))) [
              | inl good ↦ rw good (ground arith, ground arith, sanitized-IsKept is_alnum suffix)
              | inr bad ↦ rw bad (bin_starts, omega arith, bin_kept)
            ]
