-- ===== src/Prelude/Words.antt =====
-- `str.split()` and `" ".join(...)`.
use infernix.Prelude.Tests.{leb, ◌==◌, if◌then◌else◌, Bool-cases}
use infernix.Prelude.Lists.{All}
use infernix.Prelude.Text.{Text, is_set}
use Prim.Native.Nat.{ℕ}
use mathlib.Core.Path.{◌≡◌, refl}
use mathlib.Core.Logic.{inl, inr}
use mathlib.Core.Bool.{Bool, true, false, ◌&&◌, ◌||◌}
use mathlib.Core.List.{List, [], ◌∷◌}

-- The characters that `str.split()` splits at.
unfoldable pub is_space : ℕ → Bool
is_space c =
    (leb 9 c && leb c 13)
    || (leb 28 c && leb c 32)
    || (c == 133)
    || (c == 160)
    || (c == 5760)
    || (leb 8192 c && leb c 8202)
    || (c == 8232)
    || (c == 8233)
    || (c == 8239)
    || (c == 8287)
    || (c == 12288)

-- A character in front of a text and the words of that text.
unfoldable pub attach : ℕ → Text → List Text → List Text
attach c [] ws = (c ∷ []) ∷ ws
attach c (d ∷ s) [] = (c ∷ []) ∷ []
attach c (d ∷ s) (w ∷ ws) = if is_space d then (c ∷ []) ∷ w ∷ ws else (c ∷ w) ∷ ws

-- `s.split()`
unfoldable pub words : Text → List Text
unfolding attach is_space
words [] = []
words (c ∷ s) = let rest = words s in if is_space c then rest else attach c s rest

-- A word: not empty, no white space.
abbrev pub IsWord : Text → Type 0
IsWord w = (is_set w ≡ true) × All (λ c. is_space c ≡ false) w

attach-IsWord :
    (c : ℕ) (s : Text) (ws : List Text)
    → is_space c ≡ false
    → All IsWord ws
    → All IsWord (attach c s ws)
unfolding attach
attach-IsWord c [] ws n h = ((refl, (n, tt)), h)
attach-IsWord c (d ∷ s) [] n h = ((refl, (n, tt)), tt)
attach-IsWord c (d ∷ s) (w ∷ ws) n h = elim (Bool-cases (is_space d)) [
  | inl y ↦ rw (y, attach) ((refl, (n, tt)), h)
  | inr m ↦ rw (m, attach) ((refl, (n, h.0.1)), h.1)
]

pub words-IsWord : (s : Text) → All IsWord (words s)
unfolding words
words-IsWord [] = tt
words-IsWord (c ∷ s) = elim (Bool-cases (is_space c)) [
  | inl y ↦ rw (y, words) (words-IsWord s)
  | inr n ↦ rw (n, words) (attach-IsWord c s (words s) n (words-IsWord s))
]
