-- ===== src/Cache/Populate/Frame.antt =====
-- What a populate leaves alone: the other models, and the access time of a directory that existed.
use infernix.Prelude.{
  ℕ, ◌≡◌, ◌≢◌, ◌⊎◌, inl, inr, refl, ap, sym, subst, ◌∙◌, Bool, true, none, some, List, ◌++◌, arith,
  Bool-cases, Option-cases, map, not,
}
use infernix.Prelude.Text.{Text, codes, text_eq_iff, one_of}
use infernix.Prelude.Dict.{Distinct, put-Distinct, lookup, lookup-put, lookup-put_self}
use infernix.Cache.Disk.{Disk, Entry, dir}
use infernix.Cache.Config.{Result, ok, err, Configured, require_config}
use infernix.Cache.Populate.{
  Client, Files, ready_sentinel_name, download_all, make_directory, finish, with_files,
  write_sentinel, fetch_listed, has_details, relative_pairs, strip_prefix, populate_from_minio,
  list_minio_objects,
}

-- The disk after a populate is the one before, or that with new files in the model's directory.
abbrev pub Touched : ℕ → Text → Disk → Disk → Type 0
Touched now name before after =
    (after ≡ before)
    ⊎ ((old : Files) × (e : Entry) × (files : Files) × (make_directory now name before
          ≡ some (old, e))
        × (after ≡ with_files name e files before))

finish-Touched :
    (now : ℕ) (name : Text) (d : Disk) (old : Files) (e : Entry) (m : Result (Unit {0}) × Files)
    → make_directory now name d ≡ some (old, e)
    → Touched now name d (finish name e d m).1
finish-Touched now name d old e (ok _, files) made = inr (old, e, write_sentinel files, made, refl)
finish-Touched now name d old e (err x, files) made = inr (old, e, files, made, refl)

fetch_listed-made :
    (client : Client) (bucket name : Text) (now : ℕ) (keys : List Text) (d : Disk) (files : Files)
    (e : Entry)
    → one_of ready_sentinel_name (map (λ key. strip_prefix key (name ++ codes "/")) keys) ≡ true
    → make_directory now name d ≡ some (files, e)
    → fetch_listed client bucket name now keys d
      ≡ finish name e d (download_all client bucket (relative_pairs (name ++ codes "/") keys) files)
unfolding fetch_listed
fetch_listed-made client bucket name now keys d files e listed made =
    rw (listed, fetch_listed, made) refl

fetch_listed-Touched :
    (client : Client) (bucket name : Text) (now : ℕ) (keys : List Text) (d : Disk)
    → Touched now name d (fetch_listed client bucket name now keys d).1
unfolding fetch_listed
fetch_listed-Touched client bucket name now keys d =
    let prefix = name ++ codes "/" in
    elim (Bool-cases (one_of ready_sentinel_name (map (λ key. strip_prefix key prefix) keys))) [
      | inl listed ↦ elim (Option-cases (make_directory now name d)) [
        | inl blocked ↦ rw (listed, fetch_listed, blocked) (inl refl)
        | inr ((files, e), made) ↦
            subst (λ (x : Result (Unit {0}) × Disk). Touched now name d x.1)
              (sym (fetch_listed-made client bucket name now keys d files e listed made))
              (finish-Touched now name d files e
                (download_all client bucket (relative_pairs prefix keys) files) made)
      ]
      | inr unlisted ↦ rw (unlisted, fetch_listed) (inl refl)
    ]

pub populate-Touched :
    (config : Configured) (boto3 : Bool) (client : Client) (now : ℕ) (name : Text) (d : Disk)
    → Touched now name d (populate_from_minio config boto3 client now name d).1
unfolding populate_from_minio require_config
populate-Touched none boto3 client now name d = inl refl
populate-Touched (some c) boto3 client now name d = elim (Bool-cases (not (has_details c))) [
  | inl missing ↦ rw (missing, populate_from_minio) (inl refl)
  | inr known ↦ elim (Bool-cases (not boto3)) [
    | inl absent ↦ rw (known, populate_from_minio, absent) (inl refl)
    | inr there ↦
        elim (Option-cases (list_minio_objects client c.models_bucket (name ++ codes "/"))) [
          | inl failed ↦ rw (known, populate_from_minio, there, failed) (inl refl)
          | inr (keys, listed) ↦
              rw (known, populate_from_minio, there, listed)
                (fetch_listed-Touched client c.models_bucket name now keys d)
        ]
  ]
]

module _ (now : ℕ) (name : Text) (before after : Disk) (t : Touched now name before after) where
  pub Touched-other : (j : Text) → j ≢ name → lookup j after ≡ lookup j before
  Touched-other j ne = elim t [
    | inl same ↦ ap (λ (d : Disk). lookup j d) same
    | inr (old, e, files, made, written) ↦
        ap (λ (d : Disk). lookup j d) written
        ∙ ground (
          arith,
          text_eq_iff name j,
          λ (p : name ≡ j). ne (sym p),
          lookup-put name j (record { atime = e.atime; node = dir files }) before,
        )
  ]

  pub Touched-Distinct : Distinct before → Distinct after
  Touched-Distinct u = elim t [
    | inl same ↦ subst Distinct (sym same) u
    | inr (old, e, files, made, written) ↦
        subst Distinct (sym written)
          (put-Distinct name (record { atime = e.atime; node = dir files }) before u)
  ]

  -- A new directory carries the time of the populate.
  pub Touched_fresh :
      (e : Entry) → lookup name before ≡ none → lookup name after ≡ some e → e.atime ≡ now
  unfolding make_directory
  Touched_fresh e absent there = elim t [
    | inl same ↦ cc (absent, there, ap (λ (d : Disk). lookup name d) same)
    | inr (old, e', files, made, written) ↦ ground (
      arith,
      ap (λ (d : Disk). lookup name d) written,
      lookup-put_self name (record { atime = e'.atime; node = dir files }) before,
    )
  ]

  -- A directory that existed keeps its access time.
  pub Touched_stale :
      (old e : Entry)
      → lookup name before ≡ some old
      → lookup name after ≡ some e
      → e.atime ≡ old.atime
  unfolding make_directory
  Touched_stale found e here there = elim t [
    | inl same ↦ ground (arith, ap (λ (d : Disk). lookup name d) same)
    | inr (old, e', files, made, written) ↦ ground (
      arith,
      ap (λ (d : Disk). lookup name d) written,
      lookup-put_self name (record { atime = e'.atime; node = dir files }) before,
    )
  ]
