-- ===== src/Bootstrap/Main/Published.antt =====
-- When python/adapters/model_bootstrap.py publishes a model: the sentinel comes last.
use infernix.Prelude.{
  ◌≡◌, refl, ap, sym, ◌∙◌, subst, Bool, true, false, Option, none, some, List, [], ◌∷◌, ◌++◌, All,
  ℕ, zero, suc, min, ◌*◌, ◌^◌,
}
use mathlib.Core.List.{append-nil}
use infernix.Prelude.Text.{Text, codes, one_of, text_eq, join}
use infernix.Bootstrap.Store.{
  Command, put_object, Bucket, Run, ◌>>=◌, continue, issue, perform, object_key,
  ready_sentinel_name, write_ready_sentinel,
}
use infernix.Bootstrap.Payload.{
  download_single_payload, is_open_unmix_umxhq, is_mt3_pytorch_pretrained,
  is_package_backed_native_model, ParsedUrl, hugging_face_repo_id, snapshot_allow_patterns,
}
use infernix.Bootstrap.Validity.{existing_model_cache_ready}
use infernix.Bootstrap.Retry.{
  Attempt, done, transient, fatal, settle_attempt, snapshot_loop, download_hugging_face_snapshot,
  download_mt3_pytorch_pretrained,
}
use infernix.Bootstrap.Staging.{
  Entry, kept, skip_snapshot_file, kept_files, upload_directory, upload_entries, put_index,
  index_of,
}
use infernix.Bootstrap.Main.{
  Upstream, run_model_bootstrap, unless_ready, unless_package_backed, stage_model, stage_kind,
  stage_repo, stage_parsed, put_payload, put_snapshot, mt3_entries, four_files, file_named,
  ignore_patterns, download_open_unmix_umxhq,
}
use infernix.Bootstrap.Main.Quiet.{
  IsQuiet, IsStageable, bind-All, issue-All, existing-IsQuiet, upload_one-IsQuiet, index-IsQuiet,
  upload_entries-IsQuiet,
}

-- The command that writes the sentinel of a model.
abbrev pub ready_of : Text → Command
ready_of model_id = put_object (object_key model_id ready_sentinel_name) (codes "ready\n")

snapshot_loop_inv :
    {A : Type 0} (tries : ℕ → Attempt A) (left attempt : ℕ) (a : A)
    → (snapshot_loop tries left attempt).result ≡ some a
    → (k : ℕ) × (tries k ≡ done a)
unfolding snapshot_loop
snapshot_loop_inv tries zero attempt a h = absurd (cc h)
snapshot_loop_inv {A} tries (suc left) attempt a h =
    pick (tries attempt) refl h (snapshot_loop_inv tries left (suc attempt) a)
  where
    pick :
        (t : Attempt A)
        → tries attempt ≡ t
        → (settle_attempt t
            (min 60 (5 * 2 ^ attempt))
            (snapshot_loop tries left (suc attempt))).result
          ≡ some a
        → ((snapshot_loop tries left (suc attempt)).result ≡ some a → (k : ℕ) × (tries k ≡ done a))
        → (k : ℕ) × (tries k ≡ done a)
    pick (done b) e i later = (attempt, e ∙ ap (λ (x : A). done x) (cc i))
    pick transient e i later = later i
    pick fatal e i later = absurd (cc i)

module _ (takes : Command → Bool) (model_id : Text) where
  put_index-IsQuiet :
      (keys : List Text)
      → All (IsQuiet (object_key model_id ready_sentinel_name)) (put_index takes model_id keys).log
  unfolding put_index
  put_index-IsQuiet keys =
      issue-All (IsQuiet (object_key model_id ready_sentinel_name)) takes (index_of model_id keys)
        (index-IsQuiet model_id keys)

  put_snapshot-IsQuiet :
      (o : Option (List Entry))
      → ((entries : List Entry) → o ≡ some entries → All IsStageable (kept_files entries))
      → All (IsQuiet (object_key model_id ready_sentinel_name)) (put_snapshot takes model_id o).log
  unfolding upload_directory
  put_snapshot-IsQuiet none h = tt
  put_snapshot-IsQuiet (some entries) h =
      bind-All (IsQuiet (object_key model_id ready_sentinel_name))
        (upload_entries takes model_id entries []) (put_index takes model_id)
        (upload_entries-IsQuiet takes model_id entries [] (h entries refl)) put_index-IsQuiet

  put_payload-IsQuiet :
      (o : Option Text)
      → All (IsQuiet (object_key model_id ready_sentinel_name)) (put_payload takes model_id o).log
  put_payload-IsQuiet none = tt
  put_payload-IsQuiet (some body) =
      upload_one-IsQuiet takes model_id (codes "payload") body (λ h. cc h)

mt3_entries-IsStageable :
    (o : Option (Text × Text)) (entries : List Entry)
    → mt3_entries o ≡ some entries
    → All IsStageable (kept_files entries)
unfolding kept skip_snapshot_file one_of text_eq join
mt3_entries-IsStageable none entries h = absurd (cc h)
mt3_entries-IsStageable (some (config, checkpoint)) entries h =
    let e : file_named (codes "config.json") config ∷ file_named (codes "mt3.pth") checkpoint ∷ []
        ≡ entries =
      cc h in
    subst (λ (es : List Entry). All IsStageable (kept_files es)) e (λ i. cc i, (λ i. cc i, tt))

four_files-IsStageable :
    (a b c d : Option Text) (entries : List Entry)
    → four_files a b c d ≡ some entries
    → All IsStageable (kept_files entries)
unfolding kept skip_snapshot_file one_of text_eq join
four_files-IsStageable none b c d entries h = absurd (cc h)
four_files-IsStageable (some a) none c d entries h = absurd (cc h)
four_files-IsStageable (some a) (some b) none d entries h = absurd (cc h)
four_files-IsStageable (some a) (some b) (some c) none entries h = absurd (cc h)
four_files-IsStageable (some a) (some b) (some c) (some d) entries h =
    let e : file_named (codes "bass.pth") c
          ∷ file_named (codes "drums.pth") b
          ∷ file_named (codes "other.pth") d
          ∷ file_named (codes "vocals.pth") a
          ∷ []
        ≡ entries =
      cc h in
    subst (λ (es : List Entry). All IsStageable (kept_files es)) e
      (λ i. cc i, (λ i. cc i, (λ i. cc i, (λ i. cc i, tt))))

-- What the job leaves of the sentinel: a job that raises has run no command that puts it there; a
-- job that returns has put it there by its last command, and by no other.
abbrev pub PublishedLast : Text → Run (Unit {0}) → Type 0
PublishedLast model_id run = elim run.result [
  | none ↦ All (IsQuiet (object_key model_id ready_sentinel_name)) run.log
  | some _ ↦
      (staged : List Command) × (run.log ≡ staged ++ (ready_of model_id ∷ []))
      × All (IsQuiet (object_key model_id ready_sentinel_name)) staged
]

continue_publishes :
    (takes : Command → Bool) (model_id : Text) (o : Option (Unit {0})) (log : List Command)
    → All (IsQuiet (object_key model_id ready_sentinel_name)) log
    → PublishedLast model_id (continue o log (λ _. write_ready_sentinel takes model_id))
unfolding write_ready_sentinel issue
continue_publishes takes model_id none log h = h
continue_publishes takes model_id (some u) log h = step (takes (ready_of model_id))
  where
    step :
        (b : Bool)
        → PublishedLast model_id (continue (some u) log (λ _. perform b (ready_of model_id)))
    step true = (log, refl, h)
    step false =
        subst (All (IsQuiet (object_key model_id ready_sentinel_name))) (sym (append-nil log)) h

module _ (up : Upstream) (bucket : Bucket) (model_id download_url : Text)
    (stageable : (repo_id : Text) (patterns : Option (List Text)) (k : ℕ) (entries : List Entry)
      → up.snapshot_download repo_id ignore_patterns patterns k ≡ done entries
      → All IsStageable (kept_files entries)) where
  stage_kind-IsQuiet :
      (is_mt3 is_open_unmix : Bool)
      → All
          (IsQuiet (object_key model_id ready_sentinel_name))
          (stage_kind up bucket.takes model_id download_url is_mt3 is_open_unmix).log
  unfolding download_open_unmix_umxhq download_hugging_face_snapshot
  stage_kind-IsQuiet true is_open_unmix =
      let fetched = (download_mt3_pytorch_pretrained up.readers up.urlopen).result in
      put_snapshot-IsQuiet bucket.takes model_id (mt3_entries fetched)
        (mt3_entries-IsStageable fetched)
  stage_kind-IsQuiet false true =
      put_snapshot-IsQuiet bucket.takes model_id (download_open_unmix_umxhq (up.urlopen 0))
        (λ entries e. four_files-IsStageable _ _ _ _ entries e)
  stage_kind-IsQuiet false false = parsed (up.urlparse download_url)
    where
      repo :
          (o : Option Text)
          → All
              (IsQuiet (object_key model_id ready_sentinel_name))
              (stage_repo up bucket.takes model_id download_url o).log
      repo none =
          put_payload-IsQuiet bucket.takes model_id
            (download_single_payload (up.urlopen 0) download_url)
      repo (some repo_id) =
          let patterns = snapshot_allow_patterns up.lower repo_id in
          let tries = up.snapshot_download repo_id ignore_patterns patterns in
          put_snapshot-IsQuiet bucket.takes model_id (snapshot_loop tries 10 0).result (λ entries e.
            let (k, d) = snapshot_loop_inv tries 10 0 entries e in
            stageable repo_id patterns k entries d)

      parsed :
          (o : Option ParsedUrl)
          → All
              (IsQuiet (object_key model_id ready_sentinel_name))
              (stage_parsed up bucket.takes model_id download_url o).log
      parsed none = tt
      parsed (some url) = repo (hugging_face_repo_id (λ _. url) up.lower download_url)

  unless_ready-IsQuiet :
      (ready package_backed : Bool)
      → is_package_backed_native_model model_id ≡ package_backed
      → All
          (IsQuiet (object_key model_id ready_sentinel_name))
          (unless_ready up bucket.takes model_id download_url ready).log
  unfolding stage_model
  unless_ready-IsQuiet true p e = tt
  unless_ready-IsQuiet false p e =
      subst
        (λ (b : Bool).
          All (IsQuiet (object_key model_id ready_sentinel_name))
            (unless_package_backed up bucket.takes model_id download_url b).log)
        (sym e) (case p)
    where
      case :
          (b : Bool)
          → All
              (IsQuiet (object_key model_id ready_sentinel_name))
              (unless_package_backed up bucket.takes model_id download_url b).log
      case true = tt
      case false =
          stage_kind-IsQuiet (is_mt3_pytorch_pretrained download_url)
            (is_open_unmix_umxhq download_url)

  -- Where no snapshot of the hub has a file named like the sentinel: the job puts the sentinel
  -- there by its last command and by no other if it returns, and by none if it raises, whichever
  -- download or request failed.
  pub run_model_bootstrap-PublishedLast :
      PublishedLast model_id (run_model_bootstrap up bucket model_id download_url)
  unfolding run_model_bootstrap
  run_model_bootstrap-PublishedLast =
      let before = existing_model_cache_ready up.readers bucket model_id download_url >>= λ ready.
      unless_ready up bucket.takes model_id download_url ready in
      continue_publishes bucket.takes model_id before.result before.log (
        bind-All (IsQuiet (object_key model_id ready_sentinel_name))
          (existing_model_cache_ready up.readers bucket model_id download_url)
          (λ ready. unless_ready up bucket.takes model_id download_url ready)
          (existing-IsQuiet (object_key model_id ready_sentinel_name) up.readers bucket model_id
            download_url)
          (λ ready. unless_ready-IsQuiet ready (is_package_backed_native_model model_id) refl))
