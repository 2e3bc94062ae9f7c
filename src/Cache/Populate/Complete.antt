-- ===== src/Cache/Populate/Complete.antt =====
-- A finished populate has every listed object on the disk, with the bytes that the bucket served.
use infernix.Prelude.{
  ℕ, ◌≡◌, ◌≢◌, ◌⊎◌, refl, sym, subst, ◌∙◌, Bool, true, false, some, List, [], ◌∷◌, ◌++◌, arith,
  Bool-cases, Option-cases, inl, inr, map, All, All-weaken, ltb, ◌==◌, ◌||◌, ◌&&◌, not,
}
use infernix.Prelude.Text.{Text, codes, text_eq, text_eq_iff, text_eq_refl, one_of}
use infernix.Prelude.Dict.{lookup, put, lookup-put}
use infernix.Cache.Disk.{Disk, Entry, file_at}
use infernix.Cache.Config.{Result, ok, err, ModelCacheConfig, require_config}
use infernix.Cache.Populate.{
  Client, Download, complete, broken, Files, ready_sentinel_name, temp_name, replace_file,
  download_minio_object, download_all, and_then, write_sentinel, make_directory, finish, settle,
  fetch_listed, has_details, relative_pairs, strip_prefix, populate_from_minio, list_minio_objects,
}
use infernix.Cache.Populate.Ready.{
  Avoids, download_all_keeps, lookup-replace_file, file_at-with_files,
}

-- The order of texts by code points.
abbrev pub before : Text → Text → Bool
before [] [] = false
before [] (_ ∷ _) = true
before (_ ∷ _) [] = false
before (a ∷ s) (b ∷ t) = ltb a b || (a == b && before s t)

-- The listing is in ascending order, as `list_objects_v2` documents, and holds no object whose
-- name the populate uses for a temporary sentinel.
abbrev pub IsListing : List (Text × Text) → Type 0
IsListing [] = Unit
IsListing (p ∷ ps) =
    All (λ q. before p.1 q.1 ≡ true) ps × (p.1 ≢ temp_name ready_sentinel_name) × IsListing ps

not-before-append : (s r : Text) → before (s ++ r) s ≡ false
not-before-append [] [] = refl
not-before-append [] (c ∷ r) = refl
not-before-append (a ∷ s) r = ground (arith, not-before-append s r)

not-before_self : (s : Text) → before s s ≡ false
not-before_self [] = refl
not-before_self (a ∷ s) = ground (arith, not-before_self s)

before-Avoids : (path : Text) (q : Text × Text) → before path q.1 ≡ true → Avoids path q
before-Avoids path (key, relative) h = inr (
  elim (Bool-cases (text_eq relative path)) [
    | inl same ↦
        let e : relative ≡ path = (text_eq_iff relative path).0 same in
        cc (h, not-before_self path, e)
    | inr apart ↦ apart
  ],
  elim (Bool-cases (text_eq (temp_name relative) path)) [
    | inl same ↦
        let e : temp_name relative ≡ path = (text_eq_iff (temp_name relative) path).0 same in
        cc (h, not-before-append relative (codes ".tmp"), e)
    | inr apart ↦ apart
  ],
)

module _ (client : Client) (bucket : Text) where
  -- The object of the pair stands in the files as the bucket serves it; the sentinel is exempt.
  abbrev pub Fetched : Files → Text × Text → Type 0
  Fetched files (key, relative) =
      (text_eq relative ready_sentinel_name ≡ true)
      ⊎ ((body : Text) × (client.download_fileobj bucket key ≡ complete body)
          × (lookup relative files ≡ some body))

  skip_step :
      (key relative : Text) (rest : List (Text × Text)) (files : Files)
      → text_eq relative ready_sentinel_name ≡ true
      → download_all client bucket ((key, relative) ∷ rest) files
        ≡ download_all client bucket rest files
  unfolding download_all
  skip_step key relative rest files same = rw (same, download_all) refl

  fetch_step :
      (key relative : Text) (rest : List (Text × Text)) (files : Files)
      → text_eq relative ready_sentinel_name ≡ false
      → download_all client bucket ((key, relative) ∷ rest) files
        ≡ and_then
            (settle relative files (client.download_fileobj bucket key))
            (download_all client bucket rest)
  unfolding download_all download_minio_object
  fetch_step key relative rest files other = rw (other, download_all) refl

  abbrev AllFetched : List (Text × Text) → Result (Unit {0}) × Files → Type 0
  AllFetched pairs m = m.0 ≡ ok tt → All (Fetched m.1) pairs

  settled_fetch :
      (key relative : Text) (rest : List (Text × Text)) (files : Files) (done : Download)
      → client.download_fileobj bucket key ≡ done
      → All (λ q. before relative q.1 ≡ true) rest
      → ((more : Files) → AllFetched rest (download_all client bucket rest more))
      → AllFetched
          ((key, relative) ∷ rest)
          (and_then (settle relative files done) (download_all client bucket rest))
  unfolding settle
  settled_fetch key relative rest files (broken part) e later ih h = cc h
  settled_fetch key relative rest files (complete body) e later ih h =
      let staged = put (temp_name relative) body files in
      let stored = replace_file (temp_name relative) relative body staged in
      let avoids =
        All-weaken (λ (q : Text × Text). before relative q.1 ≡ true) (Avoids relative) rest
          (before-Avoids relative) later in
      let kept = download_all_keeps relative client bucket rest stored avoids in
      let written : lookup relative stored ≡ some body = ground (
        arith,
        text_eq_refl relative,
        lookup-replace_file (temp_name relative) relative body relative staged,
      ) in
      (inr (body, e, kept ∙ written), ih stored h)

  pub download_all_complete :
      (pairs : List (Text × Text)) (files : Files)
      → IsListing pairs
      → AllFetched pairs (download_all client bucket pairs files)
  download_all_complete [] files listing = λ h. tt
  download_all_complete ((key, relative) ∷ rest) files (later, plain, listing) =
      elim (Bool-cases (text_eq relative ready_sentinel_name)) [
        | inl same ↦
            subst (AllFetched ((key, relative) ∷ rest))
              (sym (skip_step key relative rest files same))
              (λ h. (inl same, download_all_complete rest files listing h))
        | inr other ↦
            subst (AllFetched ((key, relative) ∷ rest))
              (sym (fetch_step key relative rest files other))
              (settled_fetch key relative rest files (client.download_fileobj bucket key) refl later
                (λ more. download_all_complete rest more listing))
      ]

  -- The object of the pair is a file of the model's directory, as the bucket serves it.
  abbrev pub Stored : Text → Disk → Text × Text → Type 0
  Stored name d (key, relative) =
      (text_eq relative ready_sentinel_name ≡ true)
      ⊎ ((body : Text) × (client.download_fileobj bucket key ≡ complete body)
          × (file_at name relative d ≡ some body))

  sentinel_keeps :
      (path : Text) (files : Files)
      → path ≢ temp_name ready_sentinel_name
      → text_eq path ready_sentinel_name ≡ false
      → lookup path (write_sentinel files) ≡ lookup path files
  unfolding write_sentinel
  sentinel_keeps path files plain other =
      let temp = temp_name ready_sentinel_name in
      let body = codes "populated-from-minio\n" in
      ground (
        arith,
        text_eq_iff ready_sentinel_name path,
        text_eq_iff path ready_sentinel_name,
        text_eq_iff temp path,
        lookup-put temp path body files,
        lookup-replace_file temp ready_sentinel_name body path (put temp body files),
      )

  Stored-of_Fetched :
      (name : Text) (e : Entry) (d : Disk) (files : Files) (pairs : List (Text × Text))
      → IsListing pairs
      → All (Fetched files) pairs
      → All (Stored name (finish name e d (ok tt, files)).1) pairs
  Stored-of_Fetched name e d files [] listing h = tt
  Stored-of_Fetched name e d files ((key, relative) ∷ rest) (later, plain, listing) (h, hs) = (
    elim h [
      | inl same ↦ inl same
      | inr (body, served, found) ↦ elim (Bool-cases (text_eq relative ready_sentinel_name)) [
        | inl same ↦ inl same
        | inr other ↦ inr (
          body,
          served,
          file_at-with_files name relative e (write_sentinel files) d
              ∙ sentinel_keeps relative files plain other
              ∙ found,
        )
      ]
    ],
    Stored-of_Fetched name e d files rest listing hs,
  )

  abbrev AllStored : Text → List (Text × Text) → Result (Unit {0}) × Disk → Type 0
  AllStored name pairs m = m.0 ≡ ok tt → All (Stored name m.1) pairs

  finish_complete :
      (name : Text) (e : Entry) (d : Disk) (pairs : List (Text × Text))
      (m : Result (Unit {0}) × Files)
      → IsListing pairs
      → AllFetched pairs m
      → AllStored name pairs (finish name e d m)
  finish_complete name e d pairs (ok _, files) listing all h =
      Stored-of_Fetched name e d files pairs listing (all refl)
  finish_complete name e d pairs (err x, files) listing all h = cc h

  fetch_listed_complete :
      (name : Text) (now : ℕ) (keys : List Text) (d : Disk)
      → IsListing (relative_pairs (name ++ codes "/") keys)
      → AllStored name
          (relative_pairs (name ++ codes "/") keys)
          (fetch_listed client bucket name now keys d)
  unfolding fetch_listed
  fetch_listed_complete name now keys d listing =
      let prefix = name ++ codes "/" in
      elim (Bool-cases (one_of ready_sentinel_name (map (λ key. strip_prefix key prefix) keys))) [
        | inl listed ↦ elim (Option-cases (make_directory now name d)) [
          | inl blocked ↦ rw (listed, fetch_listed, blocked) (λ h. cc h)
          | inr ((files, e), made) ↦
              rw (listed, fetch_listed, made)
                (finish_complete name e d (relative_pairs prefix keys)
                  (download_all client bucket (relative_pairs prefix keys) files) listing
                  (download_all_complete (relative_pairs prefix keys) files listing))
        ]
        | inr unlisted ↦ rw (unlisted, fetch_listed) (λ h. cc h)
      ]

-- Where the listing is in ascending order and no object below the prefix is named `.ready.tmp`: if
-- the populate of a configured cache returns, every object of the listing but the sentinel is a
-- file of the model's directory, and holds the whole body that the bucket served for its key.
pub populate_complete :
    (c : ModelCacheConfig) (boto3 : Bool) (client : Client) (now : ℕ) (name : Text) (d : Disk)
    (keys : List Text)
    → list_minio_objects client c.models_bucket (name ++ codes "/") ≡ some keys
    → IsListing (relative_pairs (name ++ codes "/") keys)
    → (populate_from_minio (some c) boto3 client now name d).0 ≡ ok tt
    → All
        (Stored client c.models_bucket name
          (populate_from_minio (some c) boto3 client now name d).1)
        (relative_pairs (name ++ codes "/") keys)
unfolding populate_from_minio require_config
populate_complete c boto3 client now name d keys listed listing =
    elim (Bool-cases (not (has_details c))) [
      | inl missing ↦ rw (missing, populate_from_minio) (λ h. cc h)
      | inr known ↦ elim (Bool-cases (not boto3)) [
        | inl absent ↦ rw (known, populate_from_minio, absent) (λ h. cc h)
        | inr there ↦
            rw (known, populate_from_minio, there, listed)
              (fetch_listed_complete client c.models_bucket name now keys d listing)
      ]
    ]
