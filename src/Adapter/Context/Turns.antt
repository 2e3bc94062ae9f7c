-- ===== src/Adapter/Context/Turns.antt =====
-- What an engine is to ask of its model, said of the context and not of how an engine computes it:
-- the turns of the conversation, and their text.
use infernix.Prelude.{◌≡◌, refl, List, [], ◌∷◌, ◌++◌, map}
use infernix.Prelude.Text.{Text, codes, join}
use infernix.Adapter.Request.{ConversationTurn}
use infernix.Adapter.Context.{AdapterContext, prompt_turns}

-- The turns of a request: its conversation prefix as it is, or the user's input where it has none.
pub data Asks (context : AdapterContext) : List ConversationTurn → Type 0 where
  replays :
      {turn : ConversationTurn} {turns : List ConversationTurn}
      → context.conversation_prefix ≡ turn ∷ turns
      → Asks context (turn ∷ turns)
  begins :
      context.conversation_prefix ≡ []
      → Asks context (record { role = codes "user"; text = context.input_text } ∷ [])

-- The text of some turns: a line `role: text` for each, in their order.
pub data IsTranscript : List ConversationTurn → Text → Type 0 where
  silence : IsTranscript [] []
  one_line : (t : ConversationTurn) → IsTranscript (t ∷ []) (t.role ++ (codes ": " ++ t.text))
  more_lines :
      (t u : ConversationTurn) (ts : List ConversationTurn) (rest : Text)
      → IsTranscript (u ∷ ts) rest
      → IsTranscript (t ∷ u ∷ ts) ((t.role ++ (codes ": " ++ t.text)) ++ (codes "\n" ++ rest))

pub prompt_turns-Asks : (context : AdapterContext) → Asks context (prompt_turns context)
unfolding prompt_turns
prompt_turns-Asks context = pick (context.conversation_prefix) refl
  where
    asked : List ConversationTurn → List ConversationTurn
    asked prefix = elim prefix [
      | [] ↦ record { role = codes "user"; text = context.input_text } ∷ []
      | turn ∷ turns ↦ turn ∷ turns
    ]

    pick :
        (prefix : List ConversationTurn)
        → context.conversation_prefix ≡ prefix
        → Asks context (asked prefix)
    pick [] e = begins e
    pick (turn ∷ turns) e = replays e

pub join-IsTranscript :
    (turns : List ConversationTurn)
    → IsTranscript turns
        (join (codes "\n") (map (λ (t : ConversationTurn). t.role ++ (codes ": " ++ t.text)) turns))
unfolding join
join-IsTranscript [] = silence
join-IsTranscript (t ∷ []) = one_line t
join-IsTranscript (t ∷ u ∷ ts) = more_lines t u ts _ (join-IsTranscript (u ∷ ts))
