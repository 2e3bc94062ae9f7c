-- ===== src/Publish/Tests.antt =====
-- A store that serves its objects, and a model that the bootstrap job published into it.
use infernix.Prelude.{
  ℕ, ◌≡◌, ◌≢◌, ◌<◌, refl, ap, sym, ◌∙◌, Bool, true, false, Option, none, some, List, [], ◌∷◌, ◌++◌,
  In, In-append_left, In-append, Bool-cases, inl, inr,
}
use infernix.Prelude.Text.{
  Text, codes, text_eq, text_eq_iff, starts_with, contains_text, one_of, lstrip,
}
use infernix.Prelude.Dict.{lookup, put}
use infernix.Bootstrap.Store.{Bucket, issue, sentinel_exists, upload_one, write_ready_sentinel}
use infernix.Bootstrap.Payload.{
  Response, looks_like_html, copy_chunks, download_single_payload, is_mt3_pytorch_pretrained,
  is_open_unmix_umxhq, is_package_backed_native_model, split_path, hugging_face_repo_id,
}
use infernix.Bootstrap.Validity.{existing_model_cache_ready}
use infernix.Bootstrap.Retry.{transient}
use infernix.Bootstrap.Main.{Upstream, stage_model, run_model_bootstrap}
use infernix.Cache.Config.{ok, ModelCacheConfig, default_config}
use infernix.Cache.Populate.{
  Client, Download, complete, broken, keys_of_items, keys_of_pages, relative_pairs, strip_prefix,
}
use infernix.Cache.Access.{Around, is_ready, get_model_path}
use infernix.Cache.Access.Path.{as_dir}
use infernix.Publish.{Objects, after_log, Serves}
use infernix.Publish.Payload.{IsOneFile, published_payload_loads}
use infernix.Cache.Populate.Complete.{IsListing}
use infernix.Cache.Disk.{Entry, file_at}

-- One item of a listing for each object under the prefix.
abbrev item_if : Bool → Text → List (Option Text) → List (Option Text)
item_if true key rest = some key ∷ rest
item_if false key rest = rest

abbrev items_under : Text → Objects → List (Option Text)
items_under prefix [] = []
items_under prefix ((key, body) ∷ objects) =
    item_if (starts_with key prefix) key (items_under prefix objects)

abbrev body_of : Option Text → Download
body_of none = broken []
body_of (some body) = complete body

abbrev store_client : Objects → Client
store_client objects = record {
  paginate = λ bucket prefix. some (some (items_under prefix objects) ∷ []);
  download_fileobj = λ bucket key. body_of (lookup key objects);
}

keys_of_item_if :
    (b : Bool) (c : ℕ) (key : Text) (items : List (Option Text)) (k : Text)
    → In k (keys_of_items items)
    → In k (keys_of_items (item_if b (c ∷ key) items))
keys_of_item_if true c key items k m = inr m
keys_of_item_if false c key items k m = m

-- Every key of the store is set.
abbrev IsKeyed : Objects → Type 0
IsKeyed [] = Unit
IsKeyed (([], body) ∷ objects) = ⊥
IsKeyed ((c ∷ key, body) ∷ objects) = IsKeyed objects

items_lists :
    (prefix key body : Text) (objects : Objects)
    → IsKeyed objects
    → lookup key objects ≡ some body
    → starts_with key prefix ≡ true
    → In key (keys_of_items (items_under prefix objects))
unfolding lookup
items_lists prefix key body [] keyed h p = absurd (cc h)
items_lists prefix key body (([], b) ∷ objects) keyed h p = absurd keyed
items_lists prefix key body ((c ∷ k, b) ∷ objects) keyed h p =
    elim (Bool-cases (text_eq (c ∷ k) key)) [
      | inl same ↦
          let e : c ∷ k ≡ key = (text_eq_iff (c ∷ k) key).0 same in
          let q : starts_with (c ∷ k) prefix ≡ true =
            ap (λ (t : Text). starts_with t prefix) e ∙ p in
          rw q (inl (sym e))
      | inr other ↦
          keys_of_item_if (starts_with (c ∷ k) prefix) c k (items_under prefix objects) key
            (items_lists prefix key body objects keyed (rw other at h) p)
    ]

found_later :
    (c : ℕ) (k key b : Text) (objects : Objects)
    → (body : Text) × (lookup key objects ≡ some body)
    → (body : Text) × (lookup key ((c ∷ k, b) ∷ objects) ≡ some body)
unfolding lookup
found_later c k key b objects (body, e) = elim (Bool-cases (text_eq (c ∷ k) key)) [
  | inl same ↦ (b, rw same refl)
  | inr other ↦ (body, rw other e)
]

items_holds :
    (prefix key : Text) (objects : Objects)
    → IsKeyed objects
    → In key (keys_of_items (items_under prefix objects))
    → (body : Text) × (lookup key objects ≡ some body)
items_holds prefix key [] keyed m = absurd m
items_holds prefix key (([], b) ∷ objects) keyed m = absurd keyed
items_holds prefix key ((c ∷ k, b) ∷ objects) keyed m =
    elim (Bool-cases (starts_with (c ∷ k) prefix)) [
      | inl under ↦ elim (under_it (rw under at m)) [
        | inl e ↦ (b, unfold lookup in rw ((text_eq_iff (c ∷ k) key).1 (sym e)) refl)
        | inr n ↦ found_later c k key b objects (items_holds prefix key objects keyed n)
      ]
      | inr out ↦ found_later c k key b objects (items_holds prefix key objects keyed (rw out at m))
    ]
  where
    under_it :
        In key ((c ∷ k) ∷ keys_of_items (items_under prefix objects))
        → In key ((c ∷ k) ∷ keys_of_items (items_under prefix objects))
    under_it m = m

one_page :
    (items : List (Option Text)) → keys_of_pages (some items ∷ []) ≡ keys_of_items items ++ []
one_page items = refl

unfoldable store-Serves :
    (bucket : Text) (objects : Objects)
    → IsKeyed objects
    → Serves (store_client objects) bucket objects
store-Serves bucket objects keyed = record {
  pages = λ prefix. some (items_under prefix objects) ∷ [];
  paginates = λ prefix. refl;
  lists = λ prefix key body h p.
      In-append_left key (keys_of_items (items_under prefix objects)) []
        (items_lists prefix key body objects keyed h p);
  holds = λ prefix key m.
      items_holds prefix key objects keyed
        (elim (In-append key (keys_of_items (items_under prefix objects)) [] m) [
          | inl l ↦ l
          | inr r ↦ absurd r
        ]);
  downloads = λ key body h. ap body_of h;
}

abbrev weights : Response
weights = record {
  content_type = codes "application/octet-stream";
  chunks = codes "weights" ∷ [];
  breaks = false;
}

abbrev upstream : Upstream
upstream = record {
  urlopen = λ attempt url. some weights;
  urlparse = λ url. some (record { scheme = codes "https"; netloc = codes "w"; path = [] });
  lower = λ text. text;
  snapshot_download = λ repo ignored patterns attempt. transient;
  readers = record { loads_json = λ text. true; sha256_hex = λ text. text; testzip = λ text. none };
}

abbrev empty_bucket : Bucket
empty_bucket = record {
  head_object = λ key. none;
  list_objects = λ prefix. record { items = []; breaks = false };
  download_file = λ key. none;
  takes = λ command. true;
}

published :
    (run_model_bootstrap upstream empty_bucket (codes "m") (codes "https://w")).result ≡ some tt
unfolding run_model_bootstrap existing_model_cache_ready sentinel_exists stage_model
    is_mt3_pytorch_pretrained is_open_unmix_umxhq is_package_backed_native_model
    hugging_face_repo_id split_path download_single_payload copy_chunks looks_like_html upload_one
    write_ready_sentinel issue contains_text starts_with one_of text_eq lstrip
published = refl

abbrev objects_left : Objects
objects_left =
    after_log (run_model_bootstrap upstream empty_bucket (codes "m") (codes "https://w")).log []

abbrev configuration : ModelCacheConfig
configuration = record default_config {
  minio_endpoint = codes "http://minio";
  minio_access_key = codes "k";
  minio_secret_key = codes "s";
}

-- The same objects in the order of their keys, as S3 lists them.
abbrev objects_listed : Objects
objects_listed = (codes "m/.ready", codes "ready\n") ∷ (codes "m/payload", codes "weights") ∷ []

swapped :
    (k l x y key : Text)
    → text_eq k l ≡ false
    → lookup key ((k, x) ∷ (l, y) ∷ []) ≡ lookup key ((l, y) ∷ (k, x) ∷ [])
unfolding lookup
swapped k l x y key apart = elim (Bool-cases (text_eq k key)) [
  | inl first ↦ elim (Bool-cases (text_eq l key)) [
    | inl second ↦
        let e : k ≡ l = (text_eq_iff k key).0 first ∙ sym ((text_eq_iff l key).0 second) in
        absurd (cc (apart, (text_eq_iff k l).1 e))
    | inr other ↦ rw (first, other) refl
  ]
  | inr other ↦ rw other refl
]

listed_same : (key : Text) → lookup key objects_listed ≡ lookup key objects_left
unfolding run_model_bootstrap existing_model_cache_ready sentinel_exists stage_model
    is_mt3_pytorch_pretrained is_open_unmix_umxhq is_package_backed_native_model
    hugging_face_repo_id split_path download_single_payload copy_chunks looks_like_html upload_one
    write_ready_sentinel issue contains_text starts_with one_of text_eq lstrip put
listed_same key =
    swapped (codes "m/.ready") (codes "m/payload") (codes "ready\n") (codes "weights") key refl

unfoldable listed-Serves :
    (bucket : Text) → Serves (store_client objects_listed) bucket objects_left
listed-Serves bucket =
    let s = store-Serves bucket objects_listed tt in
    record {
      pages = s.pages;
      paginates = s.paginates;
      lists = λ prefix key body h p. s.lists prefix key body (listed_same key ∙ h) p;
      holds =
          λ prefix key m. let (body, e) = s.holds prefix key m in (body, sym (listed_same key) ∙ e);
      downloads = λ key body h. s.downloads key body (listed_same key ∙ h);
    }

one_file : IsOneFile upstream (codes "m") (codes "https://w")
unfolding is_mt3_pytorch_pretrained is_open_unmix_umxhq is_package_backed_native_model
    hugging_face_repo_id split_path contains_text starts_with one_of text_eq
one_file = record {
  not_mt3 = refl;
  not_open_unmix = refl;
  not_package_backed = refl;
  parsed = record { scheme = codes "https"; netloc = codes "w"; path = [] };
  parses = refl;
  not_a_repo = refl;
}

no_sentinel : sentinel_exists empty_bucket (codes "m") ≡ false
unfolding sentinel_exists
no_sentinel = refl

abbrev around : Around
around = record {
  config = some configuration;
  boto3 = true;
  client = store_client objects_listed;
  now = 7;
  read_only = false;
  stuck = λ name. false;
}

differ : (s t : Text) → text_eq s t ≡ false → s ≢ t
differ s t h e = cc (h, (text_eq_iff s t).1 e)

listed_in_order : IsListing (
    relative_pairs
      (codes "m/")
      (keys_of_pages ((listed-Serves (codes "infernix-models")).pages (codes "m/"))))
unfolding listed-Serves store-Serves starts_with strip_prefix text_eq
listed_in_order = (
  (refl, tt),
  differ (codes ".ready") (codes ".ready.tmp") refl,
  (tt, differ (codes "payload") (codes ".ready.tmp") refl, tt),
)

nothing_there : lookup {V = Entry} (codes "m") [] ≡ none
unfolding lookup
nothing_there = refl

nothing_newer : (j : Text) (f : Entry) → lookup j [] ≡ some f → f.atime < 7
unfolding lookup
nothing_newer j f h = absurd (cc h)

published_payload_loads_example :
    let call = get_model_path around (codes "m") [] in
    (body : Text) × (download_single_payload (upstream.urlopen 0) (codes "https://w") ≡ some body)
    × (call.0 ≡ as_dir around (codes "m") (ok tt))
    × (is_ready (codes "m") call.1 ≡ true)
    × (file_at (codes "m") (codes "payload") call.1 ≡ some body)
published_payload_loads_example =
    published_payload_loads upstream empty_bucket (codes "m") (codes "https://w") one_file
      no_sentinel around (λ k. refl) configuration [] tt []
      (listed-Serves (codes "infernix-models")) listed_in_order published refl refl refl refl
      nothing_there nothing_newer
