-- ===== src/Engine/Transformers.antt =====
-- python/adapters/transformers_python.py. The tokenizer and the model are arguments.
pub mod Continuation
use infernix.Prelude.{
  ℕ, ◌≡◌, refl, ap, sym, ◌∙◌, Bool, true, false, Option, none, some, List, [], ◌∷◌, ◌++◌, map, drop,
  length,
}
use infernix.Prelude.Text.{Text, codes, join}
use infernix.Cache.Disk.{Disk}
use infernix.Cache.Config.{ok}
use infernix.Cache.Access.{Around, ModelDir, get_model_path}
use infernix.Adapter.Request.{ConversationTurn}
use infernix.Adapter.Context.{AdapterContext, prompt_turns}
use infernix.Engine.Local.{
  TorchDevice, Torch, preferred_torch_device, Made, made, from_engine, from_engine_inv,
  with_weights, use_weights_inv, after_imports, after_imports_inv,
}

abbrev pub Ids : Type 0
Ids = List ℕ

-- What `apply_chat_template` does: a dict of tensors, anything else, a `TypeError`, another error.
pub data Templated : Type 0 where
  dict : Ids → Templated
  other_value type_error other_error : Templated

-- The tokenizer of a model's directory.
pub record Tokenizer : Type 0 where
  pub chat_template : Bool
  pub apply_chat_template : List (Text × Text) → Templated
  pub tokenize : Text → Option Ids
  pub decode : Ids → Option Text

pub record Transformers : Type 0 where
  pub installed : Bool
  pub torch : Torch
  pub load : ModelDir → TorchDevice → Option Tokenizer
  pub generate : ModelDir → TorchDevice → Ids → ℕ → Option Ids

abbrev pub message_of : ConversationTurn → Text × Text
message_of turn = (turn.role, turn.text)

abbrev pub line_of : ConversationTurn → Text
line_of turn = turn.role ++ (codes ": " ++ turn.text)

unfoldable pub flattened : List ConversationTurn → Text
unfolding join
flattened turns = join (codes "\n") (map line_of turns)

abbrev pub or_flattened : Templated → Option Ids → Option Ids
or_flattened (dict ids) flat = some ids
or_flattened other_value flat = flat
or_flattened type_error flat = flat
or_flattened other_error flat = none

abbrev pub tokenize_by : Bool → Tokenizer → List ConversationTurn → Option Ids
tokenize_by true tokenizer turns =
    or_flattened (tokenizer.apply_chat_template (map message_of turns))
      (tokenizer.tokenize (flattened turns))
tokenize_by false tokenizer turns = tokenizer.tokenize (flattened turns)

-- `_tokenize_prompt`: its `input_ids`.
unfoldable pub tokenize_prompt : Tokenizer → List ConversationTurn → Option Ids
unfolding flattened
tokenize_prompt tokenizer turns = tokenize_by tokenizer.chat_template tokenizer turns

-- From the prompt's tokens on: what is decoded is what follows them.
abbrev pub continue_prompt :
    Transformers → AdapterContext → ModelDir → TorchDevice → Tokenizer → Ids → Made Text
continue_prompt t context weights_dir device tokenizer ids =
    from_engine (t.generate weights_dir device ids context.generation_bound) (λ generated.
      from_engine (tokenizer.decode (drop (length ids) generated)) (λ text. made text))

abbrev pub run_model : Transformers → AdapterContext → ModelDir → Made Text
run_model t context weights_dir =
    let device = preferred_torch_device t.torch in
    from_engine (t.load weights_dir device) (λ tokenizer.
      from_engine (tokenize_prompt tokenizer (prompt_turns context))
        (λ ids. continue_prompt t context weights_dir device tokenizer ids))

unfoldable pub transform : Transformers → Around → AdapterContext → Disk → Made Text × Disk
unfolding tokenize_prompt preferred_torch_device
transform t around context d =
    after_imports t.installed d
      (with_weights around context.model_id d (λ weights_dir. run_model t context weights_dir))
