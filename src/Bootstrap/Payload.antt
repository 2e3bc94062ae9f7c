-- ===== src/Bootstrap/Payload.antt =====
-- The download of one file and the tests on addresses of python/adapters/model_bootstrap.py. The
-- responses of `urlopen` and the parts that `urlparse` gives are arguments.
pub mod Repo
pub mod Whole
use infernix.Prelude.{
  ℕ, ◌+◌, Bool, true, false, ◌&&◌, ◌||◌, not, Option, none, some, List, [], ◌∷◌, ◌++◌, map, length,
  ◌==◌, leb, ltb, if◌then◌else◌, take, any_of, keep_if, ◌≤◌, ◌≡◌, refl, ap, sym, ◌∙◌, arith, zero,
  All, Bool-cases, ◌⊎◌, inl, inr, suc,
}
use infernix.Prelude.Text.{
  Text, codes, text_eq, is_set, starts_with, contains_text, one_of, lstrip, join,
}

-- What `urlopen` gives: the content type, what each `read(1024 * 1024)` gives in turn (nothing once
-- they are used up), and whether reading raises after them.
pub record Response : Type 0 where
  pub content_type : Text
  pub chunks : List Text
  pub breaks : Bool

-- `bytes.lower`, and the whitespace of `bytes.lstrip`.
abbrev pub lower_byte : ℕ → ℕ
lower_byte c = if leb 65 c && leb c 90 then c + 32 else c

abbrev pub is_byte_space : ℕ → Bool
is_byte_space c = (leb 9 c && leb c 13) || c == 32

-- `_looks_like_html`
unfoldable pub looks_like_html : Text → Bool
unfolding lstrip starts_with
looks_like_html page =
    let head = map lower_byte (lstrip is_byte_space (take 512 page)) in
    any_of (λ (p : Text). starts_with head p)
      (codes "<!doctype" ∷ codes "<html" ∷ codes "<head" ∷ codes "<?xml" ∷ [])

-- What is written first, before what follows.
abbrev pub prepend : Text → Option Text → Option Text
prepend first none = none
prepend first (some more) = some (first ++ more)

-- The loop of `_download_single_payload`: what it writes, up to the first empty chunk.
unfoldable pub copy_chunks : List Text → Bool → Option Text
copy_chunks [] true = none
copy_chunks [] false = some []
copy_chunks ([] ∷ chunks) breaks = some []
copy_chunks ((c ∷ chunk) ∷ chunks) breaks = prepend (c ∷ chunk) (copy_chunks chunks breaks)

-- The first chunk decides whether the page is refused; then it is written, with what follows.
abbrev pub stage_chunks : Bool → Text → List Text → Bool → Option Text
stage_chunks true first rest breaks = none
stage_chunks false first rest breaks = prepend first (copy_chunks rest breaks)

-- Whether the page is refused, by its content type and its first chunk.
abbrev pub is_refused : Text → Text → Bool
is_refused content_type first = contains_text content_type (codes "html") || looks_like_html first

abbrev pub stage_response : Text → List Text → Bool → Option Text
stage_response content_type [] true = none
stage_response content_type [] false = stage_chunks (is_refused content_type []) [] [] false
stage_response content_type (first ∷ rest) breaks =
    stage_chunks (is_refused content_type first) first rest breaks

abbrev pub stage_opened : Option Response → Option Text
stage_opened none = none
stage_opened (some response) = stage_response response.content_type response.chunks response.breaks

-- `_download_single_payload`: the contents of the file it leaves; `none` where it raises.
unfoldable pub download_single_payload : (Text → Option Response) → Text → Option Text
download_single_payload urlopen download_url = stage_opened (urlopen download_url)

abbrev pub open_unmix_umxhq_record : Text
open_unmix_umxhq_record = codes "zenodo.org/records/3370489"

abbrev pub mt3_pytorch_pretrained_repo : Text
mt3_pytorch_pretrained_repo = codes "github.com/kunato/mt3-pytorch"

-- `_is_open_unmix_umxhq`
unfoldable pub is_open_unmix_umxhq : Text → Bool
unfolding contains_text
is_open_unmix_umxhq download_url = contains_text download_url open_unmix_umxhq_record

-- `_is_mt3_pytorch_pretrained`
unfoldable pub is_mt3_pytorch_pretrained : Text → Bool
unfolding contains_text
is_mt3_pytorch_pretrained download_url = contains_text download_url mt3_pytorch_pretrained_repo

-- `_is_package_backed_native_model`
unfoldable pub is_package_backed_native_model : Text → Bool
unfolding one_of
is_package_backed_native_model model_id = one_of model_id (codes "audio-basic-pitch-coreml" ∷ [])

-- What `urlparse` reads off an address.
pub record ParsedUrl : Type 0 where
  pub scheme : Text
  pub netloc : Text
  pub path : Text

-- `path.split("/")`; the current part is held reversed.
unfoldable pub split_path : Text → Text → List Text
split_path acc [] = acc ∷ []
split_path acc (c ∷ path) =
    let next = split_path [] path in
    let longer = split_path (acc ++ (c ∷ [])) path in if c == 47 then acc ∷ next else longer

abbrev pub repo_of : List Text → Option Text
repo_of parts =
    if ltb (length parts) 2
    then none
    else if one_of (codes "resolve") parts || one_of (codes "blob") parts
    then none
    else some (join (codes "/") (take 2 parts))

-- `_hugging_face_repo_id`
unfoldable pub hugging_face_repo_id : (Text → ParsedUrl) → (Text → Text) → Text → Option Text
unfolding split_path one_of join text_eq
hugging_face_repo_id urlparse lower download_url =
    let parsed = urlparse download_url in
    if not (one_of parsed.scheme (codes "http" ∷ codes "https" ∷ []))
    then none
    else if not (text_eq (lower parsed.netloc) (codes "huggingface.co"))
    then none
    else repo_of (keep_if is_set (split_path [] parsed.path))

-- `_snapshot_allow_patterns`; `lower` is `str.lower`.
unfoldable pub snapshot_allow_patterns : (Text → Text) → Text → Option (List Text)
unfolding text_eq
snapshot_allow_patterns lower repo_id =
    let normalized_repo_id = lower repo_id in
    if text_eq normalized_repo_id (codes "huggingfacetb/smollm2-135m-instruct")
    then some (
        codes "config.json"
        ∷ codes "generation_config.json"
        ∷ codes "merges.txt"
        ∷ codes "model.safetensors"
        ∷ codes "special_tokens_map.json"
        ∷ codes "tokenizer.json"
        ∷ codes "tokenizer_config.json"
        ∷ codes "vocab.json"
        ∷ [])
    else if text_eq normalized_repo_id (codes "apple/coreml-stable-diffusion-v1-5-palettized")
    then some (codes "original/packages/**" ∷ [])
    else if text_eq normalized_repo_id (codes "stabilityai/sdxl-turbo")
    then some (
        codes "model_index.json"
        ∷ codes "scheduler/*"
        ∷ codes "text_encoder/config.json"
        ∷ codes "text_encoder/model.fp16.safetensors"
        ∷ codes "text_encoder_2/config.json"
        ∷ codes "text_encoder_2/model.fp16.safetensors"
        ∷ codes "tokenizer/*"
        ∷ codes "tokenizer_2/*"
        ∷ codes "unet/config.json"
        ∷ codes "unet/diffusion_pytorch_model.fp16.safetensors"
        ∷ codes "vae/config.json"
        ∷ codes "vae/diffusion_pytorch_model.fp16.safetensors"
        ∷ [])
    else none
