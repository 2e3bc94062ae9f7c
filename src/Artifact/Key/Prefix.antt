-- ===== src/Artifact/Key/Prefix.antt =====
-- Which output prefixes are accepted.
use infernix.Prelude.{ℕ, ◌≡◌, refl, ◌∙◌, true, false, [], ◌∷◌, ◌++◌, ◌==◌, arith, All}
use infernix.Prelude.Text.{
  Text, codes, is_set, text_eq, starts_with, starts_with_append, ends_with, ends_with_append,
  contains_text,
}
use infernix.Artifact.Key.{accepted, is_bad_prefix, validated_generated_output_prefix}

-- A path segment as the daemon makes it: not empty, no slash, no two dots in a row.
abbrev pub IsSegment : Text → Type 0
IsSegment s =
    (is_set s ≡ true) × All (λ c. (c == b'/') ≡ false) s × (contains_text s (codes "..") ≡ false)

-- `users/<sub>/contexts/<ctx>/generated/`
abbrev pub output_prefix : Text → Text → Text
output_prefix sub ctx =
    codes "users/" ++ (sub ++ (codes "/contexts/" ++ (ctx ++ codes "/generated/")))

contains_text-append_left :
    (s t p : Text) → contains_text t p ≡ true → contains_text (s ++ t) p ≡ true
unfolding contains_text
contains_text-append_left [] t p h = h
contains_text-append_left (c ∷ s) t p h = ground (arith, contains_text-append_left s t p h)

ends_with-append_left : (s t p : Text) → ends_with t p ≡ true → ends_with (s ++ t) p ≡ true
unfolding ends_with
ends_with-append_left [] t p h = h
ends_with-append_left (c ∷ s) t p h = ground (arith, ends_with-append_left s t p h)

-- A segment followed by a slash brings in no double slash and no double dot.
double_slash-append :
    (s t : Text)
    → All (λ c. (c == b'/') ≡ false) s
    → contains_text (s ++ t) (codes "//") ≡ contains_text t (codes "//")
unfolding contains_text starts_with
double_slash-append [] t h = refl
double_slash-append (c ∷ s) t h = ground (arith, double_slash-append s t h.1)

double_dot-append :
    (s t : Text)
    → contains_text s (codes "..") ≡ false
    → contains_text (s ++ b'/' ∷ t) (codes "..") ≡ contains_text t (codes "..")
unfolding contains_text starts_with
double_dot-append [] t h = ground arith
double_dot-append (c ∷ []) t h = ground arith
double_dot-append (c ∷ d ∷ s) t h = ground (arith, double_dot-append (d ∷ s) t)

is_bad_prefix_of :
    (p : Text)
    → starts_with p (codes "users/") ≡ true
    → contains_text p (codes "/contexts/") ≡ true
    → ends_with p (codes "/generated/") ≡ true
    → contains_text p (codes "..") ≡ false
    → contains_text p (codes "//") ≡ false
    → is_bad_prefix p ≡ false
unfolding is_bad_prefix
is_bad_prefix_of p a b c d e = ground arith

accepted_of :
    (c : ℕ) (p : Text)
    → is_bad_prefix (c ∷ p) ≡ false
    → validated_generated_output_prefix (c ∷ p) ≡ accepted (c ∷ p)
unfolding validated_generated_output_prefix
accepted_of c p h = rw (h, validated_generated_output_prefix) refl

no_slashes :
    (s t : Text)
    → IsSegment s
    → contains_text (b'/' ∷ t) (codes "//") ≡ false
    → contains_text (s ++ b'/' ∷ t) (codes "//") ≡ false
no_slashes s t h e = double_slash-append s (b'/' ∷ t) h.1 ∙ e

no_slash_in_front :
    (s t : Text)
    → IsSegment s
    → contains_text (s ++ b'/' ∷ t) (codes "//") ≡ false
    → contains_text (b'/' ∷ s ++ b'/' ∷ t) (codes "//") ≡ false
unfolding contains_text starts_with
no_slash_in_front [] t h e = cc (h.0)
no_slash_in_front (c ∷ s) t h e = ground (arith, h.1.0)

segment_between :
    (s t : Text)
    → IsSegment s
    → contains_text (b'/' ∷ t) (codes "//") ≡ false
    → contains_text (b'/' ∷ s ++ b'/' ∷ t) (codes "//") ≡ false
segment_between s t h e = no_slash_in_front s t h (no_slashes s t h e)

contexts-IsSegment : IsSegment (codes "contexts")
unfolding contains_text starts_with
contexts-IsSegment =
    (refl, (refl, (refl, (refl, (refl, (refl, (refl, (refl, (refl, tt)))))))), refl)

users_no_slash : All (λ c. (c == b'/') ≡ false) (codes "users")
users_no_slash = (refl, (refl, (refl, (refl, (refl, tt)))))

contains_of_starts : (s p : Text) → starts_with s p ≡ true → contains_text s p ≡ true
unfolding contains_text
contains_of_starts [] p h = h
contains_of_starts (c ∷ s) p h = rw h

module _ (sub ctx : Text) (hs : IsSegment sub) (hc : IsSegment ctx) where
  abbrev context_part : Text
  context_part = ctx ++ codes "/generated/"

  abbrev sub_part : Text
  sub_part = sub ++ (codes "/contexts/" ++ context_part)

  has_contexts : contains_text (output_prefix sub ctx) (codes "/contexts/") ≡ true
  has_contexts = contains_text-append_left (codes "users/") sub_part (codes "/contexts/") (
      contains_text-append_left sub (codes "/contexts/" ++ context_part) (codes "/contexts/") (
        contains_of_starts (codes "/contexts/" ++ context_part) (codes "/contexts/")
          (starts_with_append (codes "/contexts/") context_part)))

  has_generated : ends_with (output_prefix sub ctx) (codes "/generated/") ≡ true
  has_generated = ends_with-append_left (codes "users/") sub_part (codes "/generated/") (
      ends_with-append_left sub (codes "/contexts/" ++ context_part) (codes "/generated/") (
        ends_with-append_left (codes "/contexts/") context_part (codes "/generated/")
          (ends_with_append ctx (codes "/generated/"))))

  no_dots : contains_text (output_prefix sub ctx) (codes "..") ≡ false
  no_dots =
      double_dot-append (codes "users") sub_part users_dots
      ∙ double_dot-append sub (codes "contexts/" ++ context_part) hs.2
      ∙ double_dot-append (codes "contexts") context_part (contexts-IsSegment.2)
      ∙ double_dot-append ctx (codes "generated/") hc.2
      ∙ generated_dots
    where
      users_dots : contains_text (codes "users") (codes "..") ≡ false
      users_dots = unfold contains_text starts_with in refl

      generated_dots : contains_text (codes "generated/") (codes "..") ≡ false
      generated_dots = unfold contains_text starts_with in refl

  no_double_slash : contains_text (output_prefix sub ctx) (codes "//") ≡ false
  no_double_slash =
      double_slash-append (codes "users") (b'/' ∷ sub_part) users_no_slash
      ∙ segment_between sub (codes "contexts/" ++ context_part) hs (
          segment_between (codes "contexts") context_part contexts-IsSegment
            (segment_between ctx (codes "generated/") hc generated_slash))
    where
      generated_slash : contains_text (codes "/generated/") (codes "//") ≡ false
      generated_slash = unfold contains_text starts_with in refl

  -- Every prefix of the shape users/<sub>/contexts/<ctx>/generated/ is accepted and given back
  -- unchanged, where sub and ctx are not empty and hold no slash and no two dots in a row.
  pub output_prefix_accepted :
      validated_generated_output_prefix (output_prefix sub ctx) ≡ accepted (output_prefix sub ctx)
  output_prefix_accepted = accepted_of b'u' (codes "sers/" ++ sub_part) (
      is_bad_prefix_of (output_prefix sub ctx) (starts_with_append (codes "users/") sub_part)
        has_contexts has_generated no_dots no_double_slash)

-- A prefix with no <ctx> segment is accepted too, its sub not empty and with no slash and no two dots
-- in a row: the test asks for "/contexts/" and "/generated/"
-- and lets them share a slash.
pub missing_context_accepted :
    (sub : Text)
    → IsSegment sub
    → let prefix = codes "users/" ++ (sub ++ codes "/contexts/generated/") in
      validated_generated_output_prefix prefix ≡ accepted prefix
missing_context_accepted sub hs = accepted_of b'u' (codes "sers/" ++ rest) (
    is_bad_prefix_of (codes "users/" ++ rest) (starts_with_append (codes "users/") rest)
      (contains_text-append_left (codes "users/") rest (codes "/contexts/")
        (contains_text-append_left sub (codes "/contexts/generated/") (codes "/contexts/") known.0))
      (ends_with-append_left (codes "users/") rest (codes "/generated/")
        (ends_with-append_left sub (codes "/contexts/generated/") (codes "/generated/") known.1))
      (double_dot-append (codes "users") rest known.2
        ∙ double_dot-append sub (codes "contexts/generated/") hs.2
        ∙ known.3)
      (double_slash-append (codes "users") (b'/' ∷ rest) users_no_slash
        ∙ segment_between sub (codes "contexts/generated/") hs known.4))
  where
    rest : Text
    rest = sub ++ codes "/contexts/generated/"

    known :
        (contains_text (codes "/contexts/generated/") (codes "/contexts/") ≡ true)
        × (ends_with (codes "/contexts/generated/") (codes "/generated/") ≡ true)
        × (contains_text (codes "users") (codes "..") ≡ false)
        × (contains_text (codes "contexts/generated/") (codes "..") ≡ false)
        × (contains_text (codes "/contexts/generated/") (codes "//") ≡ false)
    known = unfold contains_text starts_with ends_with text_eq in (refl, refl, refl, refl, refl)
