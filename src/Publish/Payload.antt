-- ===== src/Publish/Payload.antt =====
-- A model that is one file at an address, from that address through the job, the bucket and the cache
-- to the directory that an engine is given.
use infernix.Prelude.{
  ℕ, ◌≡◌, ◌<◌, refl, ap, sym, subst, ◌∙◌, Bool, true, false, Option, none, some, List, [], ◌∷◌,
  ◌++◌, In, All, All-In, inl, inr, arith,
}
use mathlib.Core.List.{append_assoc}
use infernix.Prelude.Text.{Text, codes, text_eq, is_set, starts_with, starts_with_append}
use infernix.Prelude.Dict.{Distinct, lookup, put, lookup-put, lookup-put_self}
use infernix.Bootstrap.Store.{
  Command, put_object, upload_file, Bucket, Run, ◌>>◌, object_key, sentinel_exists, upload_one,
  write_ready_sentinel, issue, issue_inv, continue_inv,
}
use infernix.Bootstrap.Payload.{
  download_single_payload, is_open_unmix_umxhq, is_mt3_pytorch_pretrained,
  is_package_backed_native_model, ParsedUrl, hugging_face_repo_id,
}
use infernix.Bootstrap.Validity.{existing_model_cache_ready}
use infernix.Bootstrap.Main.{Upstream, put_payload, stage_model, run_model_bootstrap}
use infernix.Cache.Config.{Result, ok, ModelCacheConfig}
use infernix.Cache.Disk.{Disk, Entry, dir, file_at, file_at-lookup}
use infernix.Cache.Populate.{
  ready_sentinel_name, strip_prefix, relative_pairs, make_directory, has_details,
  list_minio_objects, keys_of_pages, Client, Page, populate_from_minio,
}
use infernix.Cache.Populate.Complete.{IsListing, Stored, populate_complete}
use infernix.Cache.Access.{Around, is_ready, get_model_path}
use infernix.Cache.Access.Path.{as_dir, populated, get_model_path_result}
use infernix.Cache.Access.Evicted.{Works, not_ready_of_absent, returned_same, returned_is_ready}
use infernix.Publish.{Objects, after_log, Serves}
use infernix.Publish.Loads.{strip_prefix-append, populate_loads}

-- None of the job's special cases takes the model: it is downloaded as one file.
pub record IsOneFile (up : Upstream) (model_id download_url : Text) : Type 0 where
  pub not_mt3 : is_mt3_pytorch_pretrained download_url ≡ false
  pub not_open_unmix : is_open_unmix_umxhq download_url ≡ false
  pub not_package_backed : is_package_backed_native_model model_id ≡ false
  pub parsed : ParsedUrl
  pub parses : up.urlparse download_url ≡ some parsed
  pub not_a_repo : hugging_face_repo_id (λ _. parsed) up.lower download_url ≡ none

-- The upload and the sentinel, for what the download gave.
staged_log :
    (takes : Command → Bool) (model_id : Text) (o : Option Text)
    → (put_payload takes model_id o >> write_ready_sentinel takes model_id).result ≡ some tt
    → (body : Text) × (o ≡ some body)
      × ((put_payload takes model_id o >> write_ready_sentinel takes model_id).log
          ≡ upload_file (object_key model_id (codes "payload")) body
            ∷ put_object (object_key model_id (codes ".ready")) (codes "ready\n")
            ∷ [])
unfolding upload_one write_ready_sentinel
staged_log takes model_id none h = absurd (cc h)
staged_log takes model_id (some body) h =
    let (u, first, rest, log) =
      continue_inv (issue takes (upload_file (object_key model_id (codes "payload")) body)).result
        (issue takes (upload_file (object_key model_id (codes "payload")) body)).log
        (λ v. issue takes (put_object (object_key model_id (codes ".ready")) (codes "ready\n"))) tt
        h in
    let (taken, one) =
      issue_inv takes (upload_file (object_key model_id (codes "payload")) body) u first in
    let (taken2, two) =
      issue_inv takes (put_object (object_key model_id (codes ".ready")) (codes "ready\n")) tt
        rest in
    (
      body,
      refl,
      log
          ∙ ap
              (λ (l : List Command).
                l
                ++ (issue takes
                    (put_object (object_key model_id (codes ".ready")) (codes "ready\n"))).log)
              one
          ∙ ap (λ (l : List Command). upload_file (object_key model_id (codes "payload")) body ∷ l)
              two,
    )

text_eq-append : (p s t : Text) → text_eq (p ++ s) (p ++ t) ≡ text_eq s t
unfolding text_eq
text_eq-append [] s t = refl
text_eq-append (c ∷ p) s t = ground (arith, text_eq-append p s t)

keys_apart :
    (model_id : Text)
    → text_eq (object_key model_id (codes ".ready")) (object_key model_id (codes "payload")) ≡ false
keys_apart model_id =
    text_eq-append model_id (codes "/.ready") (codes "/payload") ∙ unfold text_eq in refl

payload_left :
    (model_id body : Text) (objects : Objects)
    → lookup (object_key model_id (codes "payload")) (
        put
          (object_key model_id (codes ".ready"))
          (codes "ready\n")
          (put (object_key model_id (codes "payload")) body objects))
      ≡ some body
payload_left model_id body objects =
    lookup-put (object_key model_id (codes ".ready")) (object_key model_id (codes "payload"))
      (codes "ready\n") (put (object_key model_id (codes "payload")) body objects)
    ∙ rw (keys_apart model_id)
        (lookup-put_self (object_key model_id (codes "payload")) body objects)

In-relative_pairs :
    (prefix key : Text) (keys : List Text)
    → In key keys
    → In (key, strip_prefix key prefix) (relative_pairs prefix keys)
In-relative_pairs prefix key [] m = absurd m
In-relative_pairs prefix key (k ∷ keys) (inl e) =
    inl (ap (λ (t : Text). (t, strip_prefix t prefix)) e)
In-relative_pairs prefix key (k ∷ keys) (inr m) = inr (In-relative_pairs prefix key keys m)

-- What a listed file holds after a populate, where the client serves its object.
Stored-body :
    (c : ModelCacheConfig) (a : Around) (objects : Objects) (name key relative body : Text)
    (d : Disk)
    → Serves a.client c.models_bucket objects
    → lookup key objects ≡ some body
    → text_eq relative ready_sentinel_name ≡ false
    → Stored a.client c.models_bucket name d (key, relative)
    → file_at name relative d ≡ some body
Stored-body c a objects name key relative body d s there other (inl same) =
    absurd (cc (other, same))
Stored-body c a objects name key relative body d s there other (inr (b, served, found)) =
    cc (found, served, s.downloads key body there)

made_new :
    (now : ℕ) (name : Text) (d : Disk)
    → lookup name d ≡ none
    → make_directory now name d ≡ some ([], record { atime = now; node = dir [] })
unfolding make_directory
made_new now name d absent = rw (absent, make_directory) refl

listed_keys :
    (client : Client) (bucket prefix : Text) (pages : List Page)
    → client.paginate bucket prefix ≡ some pages
    → list_minio_objects client bucket prefix ≡ some (keys_of_pages pages)
unfolding list_minio_objects
listed_keys client bucket prefix pages e = rw (e, list_minio_objects) refl

module _ (up : Upstream) (bucket : Bucket) (model_id download_url : Text)
    (one : IsOneFile up model_id download_url)
    (fresh : sentinel_exists bucket model_id ≡ false) where
  run_staged : run_model_bootstrap up bucket model_id download_url ≡ (
      put_payload bucket.takes model_id (download_single_payload (up.urlopen 0) download_url)
      >> write_ready_sentinel bucket.takes model_id)
  unfolding run_model_bootstrap existing_model_cache_ready stage_model
  run_staged =
      rw
        (fresh, one.not_package_backed, one.not_mt3, one.not_open_unmix, one.parses, one.not_a_repo)
        refl

  -- The bucket that the job leaves, and what the download gave.
  published :
      (objects : Objects)
      → (run_model_bootstrap up bucket model_id download_url).result ≡ some tt
      → (body : Text) × (download_single_payload (up.urlopen 0) download_url ≡ some body)
        × (lookup
              (object_key model_id (codes "payload"))
              (after_log (run_model_bootstrap up bucket model_id download_url).log objects)
            ≡ some body)
        × (lookup
              (object_key model_id (codes ".ready"))
              (after_log (run_model_bootstrap up bucket model_id download_url).log objects)
            ≡ some (codes "ready\n"))
  published objects returned =
      let gave = download_single_payload (up.urlopen 0) download_url in
      let (body, e, log) =
        staged_log bucket.takes model_id gave
          (sym (ap (λ (r : Run (Unit {0})). r.result) run_staged) ∙ returned) in
      let whole = ap (λ (r : Run (Unit {0})). r.log) run_staged ∙ log in
      (
        body,
        e,
        ap
              (λ (l : List Command).
                lookup (object_key model_id (codes "payload")) (after_log l objects))
              whole
            ∙ payload_left model_id body objects,
        ap
              (λ (l : List Command).
                lookup (object_key model_id (codes ".ready")) (after_log l objects))
              whole
            ∙ lookup-put_self (object_key model_id (codes ".ready")) (codes "ready\n")
                (put (object_key model_id (codes "payload")) body objects),
      )

  module _ (a : Around) (works : Works a) (c : ModelCacheConfig) (d : Disk) (u : Distinct d)
      (objects : Objects)
      (s : Serves a.client c.models_bucket
        (after_log (run_model_bootstrap up bucket model_id download_url).log objects))
      (listing : IsListing (
        relative_pairs
          (model_id ++ codes "/")
          (keys_of_pages (s.pages (model_id ++ codes "/"))))) where
    -- For a model that is one file at an address, not of the special cases, and that has no
    -- sentinel in the bucket yet: when the job returned, the download gave a body, and
    -- `get_model_path` returns the model's directory, with the sentinel and with the file `payload`
    -- that holds this body, on the disk after the call, eviction included. This is so where the cache
    -- is configured with the store's details and boto3, its client serves the objects as the job's
    -- commands leave them, in ascending order and none named like the sentinel's temporary file, no
    -- two entries of the disk have one name, none has the model's, the clock is past their access
    -- times, and removals succeed.
    pub published_payload_loads :
        (run_model_bootstrap up bucket model_id download_url).result ≡ some tt
        → a.config ≡ some c
        → has_details c ≡ true
        → a.boto3 ≡ true
        → is_set model_id ≡ true
        → lookup model_id d ≡ none
        → ((j : Text) (f : Entry) → lookup j d ≡ some f → f.atime < a.now)
        → let call = get_model_path a model_id d in
          (body : Text) × (download_single_payload (up.urlopen 0) download_url ≡ some body)
          × (call.0 ≡ as_dir a model_id (ok tt))
          × (is_ready model_id call.1 ≡ true)
          × (file_at model_id (codes "payload") call.1 ≡ some body)
    published_payload_loads returned configured details installed given absent clock =
        let left = after_log (run_model_bootstrap up bucket model_id download_url).log objects in
        let (body, gave, payload, sentinel) = published objects returned in
        let prefix = model_id ++ codes "/" in
        let keys = keys_of_pages (s.pages prefix) in
        let key = object_key model_id (codes "payload") in
        let split : key ≡ prefix ++ codes "payload" =
          sym (append_assoc model_id (codes "/") (codes "payload")) in
        let under : starts_with key prefix ≡ true =
          ap (λ (k : Text). starts_with k prefix) split
          ∙ starts_with_append prefix (codes "payload") in
        let stripped : strip_prefix key prefix ≡ codes "payload" =
          ap (λ (k : Text). strip_prefix k prefix) split
          ∙ strip_prefix-append prefix (codes "payload") in
        let run : Result (Unit {0}) × Disk =
          populate_from_minio (some c) true a.client a.now model_id d in
        let same : populated a model_id d ≡ run = rw (configured, installed) refl in
        let loads : run.0 ≡ ok tt =
          populate_loads c a.client left a.now model_id d []
            (record { atime = a.now; node = dir [] }) (codes "ready\n") s details
            (made_new a.now model_id d absent) sentinel in
        let returns : (populated a model_id d).0 ≡ ok tt =
          ap (λ (x : Result (Unit {0}) × Disk). x.0) same ∙ loads in
        let whole : All (Stored a.client c.models_bucket model_id run.1)
            (relative_pairs prefix keys) =
          populate_complete c true a.client a.now model_id d keys
            (listed_keys a.client c.models_bucket prefix (s.pages prefix) (s.paginates prefix))
            listing loads in
        let stored : Stored a.client c.models_bucket model_id run.1 (key, codes "payload") =
          subst (λ (r : Text). Stored a.client c.models_bucket model_id run.1 (key, r)) stripped
            (All-In (Stored a.client c.models_bucket model_id run.1) (key, strip_prefix key prefix)
              (relative_pairs prefix keys) whole
              (In-relative_pairs prefix key keys (s.lists prefix key body payload under))) in
        (
          body,
          gave,
          get_model_path_result a model_id d
              ∙ (rw given (rw (not_ready_of_absent model_id d absent, returns) refl)),
          returned_is_ready a works model_id d u given absent clock returns,
          file_at-lookup model_id (codes "payload") (get_model_path a model_id d).1
                (populated a model_id d).1
                (returned_same a works model_id d u given absent clock returns)
              ∙ ap (λ (x : Result (Unit {0}) × Disk). file_at model_id (codes "payload") x.1) same
              ∙ Stored-body c a left model_id key (codes "payload") body run.1 s payload
                  (unfold text_eq in refl) stored,
        )
