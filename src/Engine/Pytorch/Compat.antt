-- ===== src/Engine/Pytorch/Compat.antt =====
-- `_install_mt3_transformers_cache_position_compat` and `_disable_mt3_generation_cache` of
-- python/adapters/pytorch_python.py: what they make of a call. A value is `none` where Python passes
-- `None`, and what stands for the value otherwise.
use infernix.Prelude.{
  ℕ, zero, suc, ◌≡◌, ◌⊎◌, inl, inr, refl, ◌∙◌, Bool, true, false, Option, none, some, List, [], ◌∷◌,
  Bool-cases, length, leb, arith, leb→le, ◌≤◌,
}
use infernix.Prelude.Text.{Text, codes, text_eq}
use infernix.Prelude.Dict.{Dict, lookup, put, erase, lookup-put, lookup-put_self, lookup-erase_self}

abbrev pub Value : Type 0
Value = Text

-- The positional arguments after `hidden_states`, and the keyword arguments.
abbrev pub Args : Type 0
Args = List (Option Value)

abbrev pub Kwargs : Type 0
Kwargs = Dict (Option Value)

abbrev default_to : Option (Option Value) → Text → Option Value → Kwargs → Kwargs
default_to none key v kwargs = put key v kwargs
default_to (some old) key v kwargs = kwargs

-- `kwargs.setdefault(key, v)`
unfoldable pub setdefault : Text → Option Value → Kwargs → Kwargs
setdefault key v kwargs = default_to (lookup key kwargs) key v kwargs

abbrev rename_found : Option (Option Value) → Kwargs → Kwargs
rename_found none kwargs = kwargs
rename_found (some v) kwargs =
    setdefault (codes "past_key_value") v (erase (codes "past_key_values") kwargs)

-- The translation of the keyword, where the signature wants it.
unfoldable pub rename_past : Bool → Kwargs → Kwargs
unfolding setdefault
rename_past false kwargs = kwargs
rename_past true kwargs = rename_found (lookup (codes "past_key_values") kwargs) kwargs

abbrev or_position : Value → Option Value → Option Value
or_position position none = some position
or_position position (some v) = some v

-- `positional_args[11]`, where it is `None`.
abbrev pub fill_at : ℕ → Value → Args → Args
fill_at n position [] = []
fill_at zero position (a ∷ args) = or_position position a ∷ args
fill_at (suc n) position (a ∷ args) = a ∷ fill_at n position args

abbrev fill_keyword : Option (Option Value) → Value → Kwargs → Kwargs
fill_keyword none position kwargs = put (codes "cache_position") (some position) kwargs
fill_keyword (some none) position kwargs = put (codes "cache_position") (some position) kwargs
fill_keyword (some (some v)) position kwargs = kwargs

abbrev fill_position : Bool → Value → Args → Kwargs → Args × Kwargs
fill_position true position args kwargs = (fill_at 11 position args, kwargs)
fill_position false position args kwargs =
    (args, fill_keyword (lookup (codes "cache_position") kwargs) position kwargs)

-- `forward_with_cache_position`: what `original_forward` is called with.
unfoldable pub forward_call : Bool → Value → Args → Kwargs → Args × Kwargs
unfolding rename_past
forward_call rename position args kwargs =
    fill_position (leb 12 (length args)) position args (rename_past rename kwargs)

abbrev pub nth : ℕ → Args → Option Value
nth n [] = none
nth zero (a ∷ args) = a
nth (suc n) (a ∷ args) = nth n args

-- The cache position that the call passes, by position or by keyword.
abbrev pub HasPosition : Args × Kwargs → Type 0
HasPosition call =
    ((v : Value) × (nth 11 (call.0) ≡ some v))
    ⊎ ((v : Value) × (lookup (codes "cache_position") (call.1) ≡ some (some v)))

filled :
    (n : ℕ) (position : Value) (args : Args)
    → suc n ≤ length args
    → (v : Value) × (nth n (fill_at n position args) ≡ some v)
filled n position [] h = absurd (omega arith)
filled zero position (none ∷ args) h = (position, refl)
filled zero position (some v ∷ args) h = (v, refl)
filled (suc n) position (a ∷ args) h = filled n position args (omega arith)

keyword_filled :
    (o : Option (Option Value)) (position : Value) (kwargs : Kwargs)
    → lookup (codes "cache_position") kwargs ≡ o
    → (v : Value) × (lookup (codes "cache_position") (fill_keyword o position kwargs)
        ≡ some (some v))
keyword_filled none position kwargs e =
    (position, lookup-put_self (codes "cache_position") (some position) kwargs)
keyword_filled (some none) position kwargs e =
    (position, lookup-put_self (codes "cache_position") (some position) kwargs)
keyword_filled (some (some v)) position kwargs e = (v, e)

-- Whatever the caller passes, the block is called with a cache position that is not `None`.
pub forward_call-HasPosition :
    (rename : Bool) (position : Value) (args : Args) (kwargs : Kwargs)
    → HasPosition (forward_call rename position args kwargs)
unfolding forward_call
forward_call-HasPosition rename position args kwargs = elim (Bool-cases (leb 12 (length args))) [
  | inl e ↦ rw e (inl (filled 11 position args (leb→le 12 (length args) e)))
  | inr e ↦ rw e (
      inr (
        keyword_filled (lookup (codes "cache_position") (rename_past rename kwargs)) position
          (rename_past rename kwargs) refl))
]

keyword_other :
    (o : Option (Option Value)) (position : Value) (kwargs : Kwargs) (key : Text)
    → text_eq (codes "cache_position") key ≡ false
    → lookup key (fill_keyword o position kwargs) ≡ lookup key kwargs
keyword_other none position kwargs key n =
    lookup-put (codes "cache_position") key (some position) kwargs ∙ rw n refl
keyword_other (some none) position kwargs key n =
    lookup-put (codes "cache_position") key (some position) kwargs ∙ rw n refl
keyword_other (some (some v)) position kwargs key n = refl

default_keeps :
    (o : Option (Option Value)) (key : Text) (v : Option Value) (kwargs : Kwargs) (j : Text)
    → text_eq key j ≡ false
    → lookup j (default_to o key v kwargs) ≡ lookup j kwargs
default_keeps none key v kwargs j n = lookup-put key j v kwargs ∙ rw n refl
default_keeps (some old) key v kwargs j n = refl

rename_removed :
    (o : Option (Option Value)) (kwargs : Kwargs)
    → lookup (codes "past_key_values") kwargs ≡ o
    → lookup (codes "past_key_values") (rename_found o kwargs) ≡ none
unfolding setdefault text_eq
rename_removed none kwargs e = e
rename_removed (some v) kwargs e =
    default_keeps (lookup (codes "past_key_value") (erase (codes "past_key_values") kwargs))
      (codes "past_key_value") v (erase (codes "past_key_values") kwargs) (codes "past_key_values")
      refl
    ∙ lookup-erase_self (codes "past_key_values") kwargs

-- Where the block names its parameter in the singular, it is never called with the plural.
pub forward_call_renames :
    (position : Value) (args : Args) (kwargs : Kwargs)
    → lookup (codes "past_key_values") ((forward_call true position args kwargs).1) ≡ none
unfolding forward_call rename_past text_eq
forward_call_renames position args kwargs = elim (Bool-cases (leb 12 (length args))) [
  | inl e ↦ rw e removed
  | inr e ↦ rw e (
      keyword_other (lookup (codes "cache_position") renamed) position renamed
        (codes "past_key_values") refl
      ∙ removed)
]
  where
    renamed : Kwargs
    renamed = rename_found (lookup (codes "past_key_values") kwargs) kwargs

    removed : lookup (codes "past_key_values") renamed ≡ none
    removed = rename_removed (lookup (codes "past_key_values") kwargs) kwargs refl

-- `generate_without_cache`: the keywords of the call that it passes on.
unfoldable pub generate_kwargs : Kwargs → Kwargs
unfolding setdefault
generate_kwargs kwargs = setdefault (codes "use_cache") (some (codes "False")) kwargs
