-- ===== src/Prelude/Members.antt =====
-- Membership in a list, through append and through a map into lists.
use mathlib.Core.Path.{◌≡◌, refl, sym, subst}
use mathlib.Core.Logic.{◌⊎◌, inl, inr}
use mathlib.Core.Bool.{Bool, true}
use mathlib.Core.List.{List, [], ◌∷◌, ◌++◌}
use infernix.Prelude.Lists.{All, any_of}
use infernix.Prelude.Tests.{Bool-cases, or_right}
use infernix.Prelude.Text.{Text, text_eq, text_eq_iff, one_of}

module _ {A : Type 0} where
  -- `a` is one of the items.
  abbrev pub In : A → List A → Type 0
  In a [] = ⊥
  In a (x ∷ xs) = (a ≡ x) ⊎ In a xs

  pub All-In {κ} : (P : A → Type κ) (a : A) (xs : List A) → All P xs → In a xs → P a
  All-In P a [] h m = absurd m
  All-In P a (x ∷ xs) h (inl e) = subst P (sym e) h.0
  All-In P a (x ∷ xs) h (inr m) = All-In P a xs h.1 m

  pub In-append : (a : A) (xs ys : List A) → In a (xs ++ ys) → In a xs ⊎ In a ys
  In-append a [] ys m = inr m
  In-append a (x ∷ xs) ys (inl e) = inl (inl e)
  In-append a (x ∷ xs) ys (inr m) = elim (In-append a xs ys m) [
    | inl l ↦ inl (inr l)
    | inr r ↦ inr r
  ]

  pub In-append_right : (a : A) (xs ys : List A) → In a ys → In a (xs ++ ys)
  In-append_right a [] ys m = m
  In-append_right a (x ∷ xs) ys m = inr (In-append_right a xs ys m)

  pub In-append_left : (a : A) (xs ys : List A) → In a xs → In a (xs ++ ys)
  In-append_left a [] ys m = absurd m
  In-append_left a (x ∷ xs) ys (inl e) = inl e
  In-append_left a (x ∷ xs) ys (inr m) = inr (In-append_left a xs ys m)

  -- `any(...)` holds at an item, and the other way round.
  pub any_of_inv :
      (p : A → Bool) (xs : List A) → any_of p xs ≡ true → (a : A) × In a xs × (p a ≡ true)
  any_of_inv p [] h = absurd (cc h)
  any_of_inv p (x ∷ xs) h = elim (Bool-cases (p x)) [
    | inl e ↦ (x, inl refl, e)
    | inr e ↦ let (a, m, q) = any_of_inv p xs (rw e at h) in (a, inr m, q)
  ]

module _ {A B : Type 0} where
  -- The lists that `f` gives, one after the other: `extend` in a loop.
  abbrev pub concat_map : (A → List B) → List A → List B
  concat_map f [] = []
  concat_map f (x ∷ xs) = f x ++ concat_map f xs

  pub In-concat_map :
      (f : A → List B) (b : B) (xs : List A)
      → In b (concat_map f xs)
      → (a : A) × In a xs × In b (f a)
  In-concat_map f b [] m = absurd m
  In-concat_map f b (x ∷ xs) m = elim (In-append b (f x) (concat_map f xs) m) [
    | inl l ↦ (x, inl refl, l)
    | inr r ↦ let (a, i, j) = In-concat_map f b xs r in (a, inr i, j)
  ]

  pub concat_map-In :
      (f : A → List B) (b : B) (a : A) (xs : List A) → In a xs → In b (f a) → In b (concat_map f xs)
  concat_map-In f b a [] i j = absurd i
  concat_map-In f b a (x ∷ xs) (inl e) j =
      In-append_left b (f x) (concat_map f xs) (subst (λ (y : A). In b (f y)) e j)
  concat_map-In f b a (x ∷ xs) (inr i) j =
      In-append_right b (f x) (concat_map f xs) (concat_map-In f b a xs i j)

-- `s in (...)` is membership.
pub one_of_inv : (s : Text) (ts : List Text) → one_of s ts ≡ true → In s ts
unfolding one_of
one_of_inv s [] h = absurd (cc h)
one_of_inv s (t ∷ ts) h = elim (Bool-cases (text_eq s t)) [
  | inl e ↦ inl ((text_eq_iff s t).0 e)
  | inr e ↦ inr (one_of_inv s ts (rw e at h))
]

pub one_of-In : (s : Text) (ts : List Text) → In s ts → one_of s ts ≡ true
unfolding one_of
one_of-In s [] m = absurd m
one_of-In s (t ∷ ts) (inl e) = rw ((text_eq_iff s t).1 e)
one_of-In s (t ∷ ts) (inr m) = or_right (text_eq s t) (one_of s ts) (one_of-In s ts m)
