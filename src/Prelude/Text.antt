-- ===== src/Prelude/Text.antt =====
-- Python's text and bytes as lists of numbers: code points of a `str`, values of `bytes`.
use Prim.Native.Char.{code}
use Prim.Native.String.{String}
use Prim.Native.Nat.{ℕ}
use mathlib.Core.Path.{◌≡◌, refl, ap}
use mathlib.Core.Logic.{◌↔◌, inl, inr}
use mathlib.Core.Bool.{Bool, true, false, ◌&&◌, ◌||◌}
use mathlib.Core.List.{List, [], ◌∷◌, ◌++◌}
use native.Mathlib.Omega.{arith}
use infernix.Prelude.Tests.{◌==◌, if◌then◌else◌, Bool-cases}

abbrev pub Text : Type 0
Text = List ℕ

abbrev pub codes : String → Text
codes String.[] = []
codes (String.◌∷◌ c s) = code c ∷ codes s

-- `a == b`
unfoldable pub text_eq : Text → Text → Bool
text_eq [] [] = true
text_eq [] (_ ∷ _) = false
text_eq (_ ∷ _) [] = false
text_eq (a ∷ s) (b ∷ t) = a == b && text_eq s t

pub text_eq_iff : (s t : Text) → (text_eq s t ≡ true) ↔ (s ≡ t)
unfolding text_eq
text_eq_iff [] [] = (λ _. refl, λ _. refl)
text_eq_iff [] (b ∷ t) = (λ h. cc, λ h. cc)
text_eq_iff (a ∷ s) [] = (λ h. cc, λ h. cc)
text_eq_iff (a ∷ s) (b ∷ t) = ground (arith, text_eq_iff s t)

pub text_eq_refl : (s : Text) → text_eq s s ≡ true
text_eq_refl s = (text_eq_iff s s).1 refl

-- `bool(s)`
abbrev pub is_set : Text → Bool
is_set [] = false
is_set (_ ∷ _) = true

-- `s or d`
abbrev pub text_or : Text → Text → Text
text_or [] d = d
text_or (c ∷ s) d = c ∷ s

-- `s.startswith(p)`
unfoldable pub starts_with : Text → Text → Bool
starts_with s [] = true
starts_with [] (_ ∷ _) = false
starts_with (c ∷ s) (d ∷ p) = c == d && starts_with s p

-- `s.endswith(p)`
unfoldable pub ends_with : Text → Text → Bool
unfolding text_eq
ends_with [] p = text_eq [] p
ends_with (c ∷ s) p = text_eq (c ∷ s) p || ends_with s p

-- `p in s`
unfoldable pub contains_text : Text → Text → Bool
unfolding starts_with
contains_text [] p = starts_with [] p
contains_text (c ∷ s) p = starts_with (c ∷ s) p || contains_text s p

-- `s in (t1, t2, ...)`
unfoldable pub one_of : Text → List Text → Bool
unfolding text_eq
one_of s [] = false
one_of s (t ∷ ts) = text_eq s t || one_of s ts

-- `c in "..."` for one character
unfoldable pub has_char : ℕ → Text → Bool
has_char c [] = false
has_char c (d ∷ s) = c == d || has_char c s

-- `sep.join(parts)`
unfoldable pub join : Text → List Text → Text
join sep [] = []
join sep (t ∷ []) = t
join sep (t ∷ u ∷ ts) = t ++ (sep ++ join sep (u ∷ ts))

-- `s.lstrip(...)`, the characters to strip given by a test
unfoldable pub lstrip : (ℕ → Bool) → Text → Text
lstrip p [] = []
lstrip p (c ∷ s) = let rest = lstrip p s in elim (p c) [ true ↦ rest | false ↦ c ∷ s ]

-- `s.rstrip(...)`
unfoldable pub rstrip : (ℕ → Bool) → Text → Text
rstrip p [] = []
rstrip p (c ∷ s) =
    let rest = rstrip p s in elim rest [ [] ↦ if p c then [] else c ∷ [] | d ∷ r ↦ c ∷ d ∷ r ]

pub starts_with_append : (p r : Text) → starts_with (p ++ r) p ≡ true
unfolding starts_with
starts_with_append [] r = refl
starts_with_append (c ∷ p) r = ground (arith, starts_with_append p r)

pub starts_with_inv : (s p : Text) → starts_with s p ≡ true → (r : Text) × (s ≡ p ++ r)
unfolding starts_with
starts_with_inv s [] h = (s, refl)
starts_with_inv [] (d ∷ p) h = absurd (cc h)
starts_with_inv (c ∷ s) (d ∷ p) h =
    let (r, e) = starts_with_inv s p (ground arith) in (r, ground arith)

pub ends_with_inv : (s p : Text) → ends_with s p ≡ true → (r : Text) × (s ≡ r ++ p)
unfolding ends_with
ends_with_inv [] p h = ([], (text_eq_iff [] p).0 h)
ends_with_inv (c ∷ s) p h = elim (Bool-cases (text_eq (c ∷ s) p)) [
  | inl e ↦ ([], (text_eq_iff (c ∷ s) p).0 e)
  | inr n ↦ let (r, e) = ends_with_inv s p (ground arith) in (c ∷ r, ap (λ (t : Text). c ∷ t) e)
]

pub ends_with_append : (r p : Text) → ends_with (r ++ p) p ≡ true
unfolding ends_with
ends_with_append [] [] = refl
ends_with_append [] (d ∷ p) = ground (arith, text_eq_refl (d ∷ p))
ends_with_append (c ∷ r) p = ground (arith, ends_with_append r p)

pub contains_text_inv : (s p : Text) → contains_text s p ≡ true → (a b : Text) × (s ≡ a ++ (p ++ b))
unfolding contains_text
contains_text_inv [] p h = let (r, e) = starts_with_inv [] p h in ([], r, e)
contains_text_inv (c ∷ s) p h = elim (Bool-cases (starts_with (c ∷ s) p)) [
  | inl y ↦ let (r, e) = starts_with_inv (c ∷ s) p y in ([], r, e)
  | inr n ↦
      let (a, b, e) = contains_text_inv s p (ground arith) in (c ∷ a, b, ap (λ (t : Text). c ∷ t) e)
]
