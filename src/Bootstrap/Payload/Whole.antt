-- ===== src/Bootstrap/Payload/Whole.antt =====
-- What `_download_single_payload` of python/adapters/model_bootstrap.py stages of a response.
use infernix.Prelude.{
  ℕ, Bool, true, false, ◌||◌, Option, none, some, List, [], ◌∷◌, ◌++◌, map, length, if◌then◌else◌,
  take, any_of, ◌≤◌, ◌≡◌, refl, ap, sym, ◌∙◌, arith, zero, suc, All, Bool-cases, ◌⊎◌, inl, inr,
}
use mathlib.Core.List.{append-nil}
use infernix.Prelude.Text.{Text, codes, is_set, starts_with, contains_text, lstrip}
use infernix.Bootstrap.Payload.{
  Response, lower_byte, is_byte_space, looks_like_html, copy_chunks, stage_chunks, is_refused,
  stage_response, stage_opened, download_single_payload,
}

take-append : (n : ℕ) (a b : Text) → n ≤ length a → take n (a ++ b) ≡ take n a
take-append zero a b h = refl
take-append (suc n) [] b h = absurd (omega arith)
take-append (suc n) (c ∷ a) b h = ap (λ (t : Text). c ∷ t) (take-append n a b (omega arith))

looks_like_html-append :
    (first more : Text)
    → 512 ≤ length first
    → looks_like_html (first ++ more) ≡ looks_like_html first
unfolding looks_like_html
looks_like_html-append first more long =
    ap
      (λ (t : Text).
        any_of (λ (p : Text). starts_with (map lower_byte (lstrip is_byte_space t)) p)
          (codes "<!doctype" ∷ codes "<html" ∷ codes "<head" ∷ codes "<?xml" ∷ []))
      (take-append 512 first more long)

-- The reads of a response, one after the other.
abbrev pub concat : List Text → Text
concat [] = []
concat (chunk ∷ chunks) = chunk ++ concat chunks

-- Whether the response is a page and not a model: its type names HTML, or its body begins like one.
abbrev pub is_page : Text → Text → Bool
is_page content_type body = contains_text content_type (codes "html") || looks_like_html body

-- The whole body of a response, or nothing if the response is a page or its reads break off.
abbrev pub whole_body : Response → Option Text
whole_body response =
    if is_page response.content_type (concat response.chunks) || response.breaks
    then none
    else some (concat response.chunks)

-- Every read before the end gives something.
abbrev pub IsRead : Text → Type 0
IsRead chunk = is_set chunk ≡ true

-- The first read gives the 512 bytes that are looked at, or the whole body.
abbrev pub IsFirstRead : List Text → Type 0
IsFirstRead [] = Unit
IsFirstRead (first ∷ rest) = (512 ≤ length first) ⊎ (rest ≡ [])

copy_chunks-concat :
    (chunks : List Text) (breaks : Bool)
    → All IsRead chunks
    → copy_chunks chunks breaks ≡ (if breaks then none else some (concat chunks))
unfolding copy_chunks
copy_chunks-concat [] true h = refl
copy_chunks-concat [] false h = refl
copy_chunks-concat ([] ∷ chunks) breaks h = cc (h.0)
copy_chunks-concat ((c ∷ chunk) ∷ chunks) true h = rw (copy_chunks-concat chunks true h.1) refl
copy_chunks-concat ((c ∷ chunk) ∷ chunks) false h = rw (copy_chunks-concat chunks false h.1) refl

looks_like_html-first :
    (first : Text) (rest : List Text)
    → IsFirstRead (first ∷ rest)
    → looks_like_html (first ++ concat rest) ≡ looks_like_html first
looks_like_html-first first rest (inl long) = looks_like_html-append first (concat rest) long
looks_like_html-first first rest (inr short) =
    ap (λ (r : List Text). looks_like_html (first ++ concat r)) short
    ∙ ap looks_like_html (append-nil first)

stage_chunks_whole :
    (page breaks : Bool) (first : Text) (rest : List Text)
    → All IsRead rest
    → stage_chunks page first rest breaks
      ≡ (if page || breaks then none else some (first ++ concat rest))
stage_chunks_whole true breaks first rest h = refl
stage_chunks_whole false true first rest h = rw (copy_chunks-concat rest true h) refl
stage_chunks_whole false false first rest h = rw (copy_chunks-concat rest false h) refl

stage_response_whole :
    (content_type : Text) (chunks : List Text) (breaks : Bool)
    → All IsRead chunks
    → IsFirstRead chunks
    → stage_response content_type chunks breaks
      ≡ whole_body (record { content_type = content_type; chunks = chunks; breaks = breaks })
stage_response_whole content_type [] true h f = elim (Bool-cases (is_page content_type [])) [
  | inl y ↦ rw y refl
  | inr n ↦ rw n refl
]
stage_response_whole content_type [] false h f =
    stage_chunks_whole (is_refused content_type []) false [] [] tt
stage_response_whole content_type (first ∷ rest) breaks h f =
    stage_chunks_whole (is_refused content_type first) breaks first rest h.1
    ∙ ap
        (λ (html : Bool).
          if (contains_text content_type (codes "html") || html) || breaks
          then none
          else some (first ++ concat rest))
        (sym (looks_like_html-first first rest f))

-- Where every read before the end gives something, and the first gives 512 bytes or the whole body:
-- a response is staged as the whole of its body, every read of it, unless its type names HTML, its
-- body looks like HTML, or reading it breaks off, and then the download raises.
pub download_whole_or_refused :
    (urlopen : Text → Option Response) (download_url : Text) (response : Response)
    → urlopen download_url ≡ some response
    → All IsRead response.chunks
    → IsFirstRead response.chunks
    → download_single_payload urlopen download_url ≡ whole_body response
unfolding download_single_payload
download_whole_or_refused urlopen download_url response opened reads first =
    ap stage_opened opened
    ∙ stage_response_whole response.content_type response.chunks response.breaks reads first
