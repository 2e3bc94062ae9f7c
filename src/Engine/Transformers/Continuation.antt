-- ===== src/Engine/Transformers/Continuation.antt =====
-- What the text that `transform` of python/adapters/transformers_python.py answers is made of.
use infernix.Prelude.{
  ℕ, ◌≡◌, refl, ap, sym, ◌∙◌, true, false, some, List, [], ◌∷◌, ◌++◌, map, drop, length, Bool-cases,
  inl, inr,
}
use mathlib.Core.Option.{some-injective}
use infernix.Prelude.Text.{Text}
use infernix.Cache.Disk.{Disk}
use infernix.Cache.Config.{ok}
use infernix.Cache.Access.{Around, ModelDir, get_model_path}
use infernix.Adapter.Request.{ConversationTurn}
use infernix.Adapter.Context.{AdapterContext, prompt_turns}
use infernix.Engine.Local.{
  TorchDevice, preferred_torch_device, Made, made, from_engine_inv, with_weights, use_weights_inv,
  after_imports_inv,
}
use infernix.Adapter.Context.Turns.{Asks, IsTranscript, prompt_turns-Asks, join-IsTranscript}
use infernix.Engine.Transformers.{
  Ids, Templated, dict, other_value, type_error, other_error, Tokenizer, Transformers, message_of,
  flattened, or_flattened, tokenize_prompt, run_model, transform,
}

drop-append : (xs ys : Ids) → drop (length xs) (xs ++ ys) ≡ ys
drop-append [] ys = refl
drop-append (x ∷ xs) ys = drop-append xs ys

-- The pairs of role and text that a chat template takes.
abbrev pub pairs : List ConversationTurn → List (Text × Text)
pairs turns = map (λ (turn : ConversationTurn). (turn.role, turn.text)) turns

-- The tokenizer has no chat template, or its template gives no dict of tensors or a `TypeError`.
pub data Untemplated (tokenizer : Tokenizer) (turns : List ConversationTurn) : Type 0 where
  absent : tokenizer.chat_template ≡ false → Untemplated tokenizer turns
  not_a_dict :
      tokenizer.apply_chat_template (pairs turns) ≡ other_value → Untemplated tokenizer turns
  mistyped : tokenizer.apply_chat_template (pairs turns) ≡ type_error → Untemplated tokenizer turns

-- The tokens of some turns: what the model's own chat template makes of the pairs of role and text,
-- or, where it has none or gives no dict of tensors, what the tokenizer makes of the lines
-- `role: text`.
pub data Tokenizes (tokenizer : Tokenizer) (turns : List ConversationTurn) : Ids → Type 0 where
  templated :
      (ids : Ids)
      → tokenizer.chat_template ≡ true
      → tokenizer.apply_chat_template (pairs turns) ≡ dict ids
      → Tokenizes tokenizer turns ids
  as_text :
      (text : Text) (ids : Ids)
      → Untemplated tokenizer turns
      → IsTranscript turns text
      → tokenizer.tokenize text ≡ some ids
      → Tokenizes tokenizer turns ids

or_flattened-Tokenizes :
    (tokenizer : Tokenizer) (turns : List ConversationTurn) (ids : Ids) (t : Templated)
    → tokenizer.chat_template ≡ true
    → tokenizer.apply_chat_template (map message_of turns) ≡ t
    → or_flattened t (tokenizer.tokenize (flattened turns)) ≡ some ids
    → Tokenizes tokenizer turns ids
unfolding flattened
or_flattened-Tokenizes tokenizer turns ids (dict found) has e h =
    templated ids has (e ∙ ap dict (some-injective found ids h))
or_flattened-Tokenizes tokenizer turns ids other_value has e h =
    as_text (flattened turns) ids (not_a_dict e) (join-IsTranscript turns) h
or_flattened-Tokenizes tokenizer turns ids type_error has e h =
    as_text (flattened turns) ids (mistyped e) (join-IsTranscript turns) h
or_flattened-Tokenizes tokenizer turns ids other_error has e h = absurd (cc h)

tokenize_prompt-Tokenizes :
    (tokenizer : Tokenizer) (turns : List ConversationTurn) (ids : Ids)
    → tokenize_prompt tokenizer turns ≡ some ids
    → Tokenizes tokenizer turns ids
unfolding tokenize_prompt flattened
tokenize_prompt-Tokenizes tokenizer turns ids h = elim (Bool-cases tokenizer.chat_template) [
  | inl has ↦
      or_flattened-Tokenizes tokenizer turns ids
        (tokenizer.apply_chat_template (map message_of turns)) has refl (rw has at h)
  | inr no_template ↦
      as_text (flattened turns) ids (absent no_template) (join-IsTranscript turns)
        (rw no_template at h)
]

-- What a text that `transform` answers is made of.
pub record IsContinuation (t : Transformers) (around : Around) (context : AdapterContext) (d : Disk)
    (text : Text) : Type 0 where
  pub weights_dir : ModelDir
  pub tokenizer : Tokenizer
  pub turns : List ConversationTurn
  pub prompt : Ids
  pub continuation : Ids
  pub on_weights : (get_model_path around context.model_id d).0 ≡ ok weights_dir
  pub loaded : t.load weights_dir (preferred_torch_device t.torch) ≡ some tokenizer
  pub asked : Asks context turns
  pub whole_prefix : Tokenizes tokenizer turns prompt
  pub generated :
      t.generate weights_dir (preferred_torch_device t.torch) prompt context.generation_bound
      ≡ some (prompt ++ continuation)
  pub decoded : tokenizer.decode continuation ≡ some text

-- Where the model's output begins with its prompt, as `generate` documents: a text that is answered
-- is decoded from the tokens after the prompt alone; the prompt is the tokens of the turns of the
-- whole conversation prefix in order, or of the user's input where there is none, by the chat template
-- or as lines `role: text`; and the model is the one in the directory that the cache gave for the
-- request's id.
pub transform-IsContinuation :
    (t : Transformers) (around : Around) (context : AdapterContext) (d : Disk) (text : Text)
    → ((weights_dir : ModelDir) (device : TorchDevice) (ids more : Ids) (bound : ℕ)
        → t.generate weights_dir device ids bound ≡ some more
        → (new : Ids) × (more ≡ ids ++ new))
    → (transform t around context d).0 ≡ made text
    → IsContinuation t around context d text
unfolding transform
transform-IsContinuation t around context d text begins h =
    let device = preferred_torch_device t.torch in
    let run = with_weights around context.model_id d (λ w. run_model t context w) in
    let (same, installed) = after_imports_inv t.installed d run text h in
    let (w, found, g, disk) =
      use_weights_inv (get_model_path around context.model_id d) (λ v. run_model t context v) text
        (sym (ap (λ (x : Made Text × Disk). x.0) same) ∙ h) in
    let (tokenizer, loaded, g1) = from_engine_inv (t.load w device) _ text g in
    let (ids, prefixed, g2) =
      from_engine_inv (tokenize_prompt tokenizer (prompt_turns context)) _ text g1 in
    let (more, generated, g3) =
      from_engine_inv (t.generate w device ids context.generation_bound) _ text g2 in
    let (answer, decoded, g4) =
      from_engine_inv (tokenizer.decode (drop (length ids) more)) _ text g3 in
    let (new, split) = begins w device ids more context.generation_bound generated in
    record {
      weights_dir = w;
      tokenizer = tokenizer;
      turns = prompt_turns context;
      prompt = ids;
      continuation = new;
      on_weights = found;
      loaded = loaded;
      asked = prompt_turns-Asks context;
      whole_prefix = tokenize_prompt-Tokenizes tokenizer (prompt_turns context) ids prefixed;
      generated = generated ∙ ap (λ (x : Ids). some x) split;
      decoded =
          ap (λ (x : Ids). tokenizer.decode x)
            (sym (ap (λ (x : Ids). drop (length ids) x) split ∙ drop-append ids new))
          ∙ decoded
          ∙ same_text answer g4;
    }
  where
    same_text : (answer : Text) → made answer ≡ made text → some answer ≡ some text
    same_text answer e = cc e
