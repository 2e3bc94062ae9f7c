-- ===== src/Adapter/Context/Prompt.antt =====
-- The prompt text: its words, one space between them.
use infernix.Prelude.{ℕ, ◌≡◌, refl, ap, ◌∙◌, List, [], ◌∷◌, ◌++◌, All}
use infernix.Prelude.Text.{Text, codes, join}
use infernix.Prelude.Words.{is_space, attach, words, IsWord, words-IsWord}
use infernix.Adapter.Context.{normalized_input_text}

-- A word that stands alone.
words-one : (w : Text) → IsWord w → words w ≡ w ∷ []
unfolding words attach
words-one [] h = cc (h.0)
words-one (c ∷ []) h = rw (h.1.0, words) refl
words-one (c ∷ d ∷ w) h = rw (h.1.0, words, words-one (d ∷ w) (refl, h.1.1), h.1.1.0) refl

attach-space : (c : ℕ) (s : Text) (ws : List Text) → attach c (b' ' ∷ s) ws ≡ (c ∷ []) ∷ ws
unfolding attach is_space
attach-space c s [] = refl
attach-space c s (w ∷ ws) = refl

-- A word before a space.
words-space : (w s : Text) → IsWord w → words (w ++ b' ' ∷ s) ≡ w ∷ words s
unfolding words attach
words-space [] s h = cc (h.0)
words-space (c ∷ []) s h = rw (h.1.0, words) (attach-space c s (words s))
words-space (c ∷ d ∷ w) s h = rw (h.1.0, words, words-space (d ∷ w) s (refl, h.1.1), h.1.1.0) refl

-- The words of a joined list of words are those words.
pub words-join : (ws : List Text) → All IsWord ws → words (join (codes " ") ws) ≡ ws
unfolding join
words-join [] h = unfold words in refl
words-join (w ∷ []) h = words-one w h.0
words-join (w ∷ v ∷ ws) h =
    words-space w (join (codes " ") (v ∷ ws)) h.0
    ∙ ap (λ (l : List Text). w ∷ l) (words-join (v ∷ ws) h.1)

-- Normalising keeps the words of the prompt in their order.
pub words-normalized : (value : Text) → words (normalized_input_text value) ≡ words value
unfolding normalized_input_text
words-normalized value = words-join (words value) (words-IsWord value)

-- Normalising twice is normalising once.
pub normalized_idem :
    (value : Text)
    → normalized_input_text (normalized_input_text value) ≡ normalized_input_text value
unfolding normalized_input_text
normalized_idem value = ap (join (codes " ")) (words-join (words value) (words-IsWord value))
