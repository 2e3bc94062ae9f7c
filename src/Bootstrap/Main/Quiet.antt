-- ===== src/Bootstrap/Main/Quiet.antt =====
-- The commands of python/adapters/model_bootstrap.py that do not write the sentinel.
use infernix.Prelude.{
  ◌≡◌, ◌≢◌, refl, ap, Bool, true, false, Option, none, some, List, [], ◌∷◌, ◌++◌, All, All-append,
  Bool-cases, inl, inr, length, ◌==◌, if◌then◌else◌, ℕ,
}
use infernix.Prelude.Text.{Text, codes, text_eq, text_eq_iff, one_of}
use infernix.Bootstrap.Store.{
  Command, delete_objects, upload_file, Bucket, Run, pure, continue, perform, ◌>>=◌, issue,
  object_key, ready_sentinel_name, native_snapshot_index_name, upload_one, present_after,
  sentinel_exists, native_snapshot_index_name,
}
use infernix.Bootstrap.Delete.{
  add_key, send_full, delete_loop, flush_pending, after_listing, delete_model_prefix, batch_size,
}
use infernix.Bootstrap.Validity.{
  Readers, CacheValidity, valid, corrupt, unverifiable, revalidate, existing_model_cache_ready,
  mt3_pytorch_cache_validity,
}
use infernix.Bootstrap.Payload.{is_mt3_pytorch_pretrained}
use infernix.Bootstrap.Staging.{
  Entry, kept, kept_files, add_kept, upload_kept, upload_entries, index_of,
}

-- A command that does not put the object of `key` there.
abbrev pub IsQuiet : Text → Command → Type 0
IsQuiet key c = present_after key false c ≡ false

-- Chains of quiet steps.
continue-All :
    {A B : Type 0} (P : Command → Type 0) (o : Option A) (log : List Command) (f : A → Run B)
    → All P log
    → ((a : A) → o ≡ some a → All P (f a).log)
    → All P (continue o log f).log
continue-All P none log f h g = h
continue-All P (some a) log f h g = All-append P log (f a).log h (g a refl)

pub bind-All :
    {A B : Type 0} (P : Command → Type 0) (m : Run A) (f : A → Run B)
    → All P m.log
    → ((a : A) → All P (f a).log)
    → All P (m >>= f).log
bind-All P m f h g = continue-All P m.result m.log f h (λ a e. g a)

perform-All : (P : Command → Type 0) (b : Bool) (c : Command) → P c → All P (perform b c).log
perform-All P true c h = (h, tt)
perform-All P false c h = tt

pub issue-All :
    (P : Command → Type 0) (takes : Command → Bool) (c : Command) → P c → All P (issue takes c).log
unfolding issue
issue-All P takes c h = perform-All P (takes c) c h

either_false : (b : Bool) → (if b then false else false) ≡ false
either_false true = refl
either_false false = refl

delete-IsQuiet : (key : Text) (keys : List Text) → IsQuiet key (delete_objects keys)
unfolding present_after
delete-IsQuiet key keys = either_false (one_of key keys)

module _ (takes : Command → Bool) (key : Text) where
  send_full-IsQuiet :
      (full : Bool) (pending : List Text) → All (IsQuiet key) (send_full takes full pending).log
  send_full-IsQuiet true pending =
      bind-All (IsQuiet key) (issue takes (delete_objects pending)) (λ _. pure [])
        (issue-All (IsQuiet key) takes (delete_objects pending) (delete-IsQuiet key pending))
        (λ _. tt)
  send_full-IsQuiet false pending = tt

  delete_loop-IsQuiet :
      (limit : ℕ) (items : List (Option Text)) (pending : List Text)
      → All (IsQuiet key) (delete_loop takes limit items pending).log
  unfolding delete_loop
  delete_loop-IsQuiet limit [] pending = tt
  delete_loop-IsQuiet limit (item ∷ rest) pending =
      let now = add_key item pending in
      bind-All (IsQuiet key) (send_full takes (length now == limit) now)
        (λ left. delete_loop takes limit rest left) (send_full-IsQuiet (length now == limit) now)
        (λ left. delete_loop-IsQuiet limit rest left)

  after_listing-IsQuiet :
      (breaks : Bool) (left : List Text) → All (IsQuiet key) (after_listing takes breaks left).log
  unfolding flush_pending
  after_listing-IsQuiet true left = tt
  after_listing-IsQuiet false [] = tt
  after_listing-IsQuiet false (k ∷ keys) =
      issue-All (IsQuiet key) takes (delete_objects (k ∷ keys)) (delete-IsQuiet key (k ∷ keys))

delete_model_prefix-IsQuiet :
    (key : Text) (bucket : Bucket) (model_id : Text)
    → All (IsQuiet key) (delete_model_prefix bucket model_id).log
unfolding delete_model_prefix
delete_model_prefix-IsQuiet key bucket model_id =
    let listing = bucket.list_objects (model_id ++ codes "/") in
    bind-All (IsQuiet key) (delete_loop bucket.takes batch_size listing.items [])
      (after_listing bucket.takes listing.breaks)
      (delete_loop-IsQuiet bucket.takes key batch_size listing.items [])
      (after_listing-IsQuiet bucket.takes key listing.breaks)

pub existing-IsQuiet :
    (key : Text) (readers : Readers) (bucket : Bucket) (model_id download_url : Text)
    → All (IsQuiet key) (existing_model_cache_ready readers bucket model_id download_url).log
unfolding existing_model_cache_ready
existing-IsQuiet key readers bucket model_id download_url =
    steps (sentinel_exists bucket model_id) (is_mt3_pytorch_pretrained download_url)
      (mt3_pytorch_cache_validity readers bucket model_id)
  where
    steps :
        (exists is_mt3 : Bool) (v : CacheValidity)
        → All (IsQuiet key) (revalidate exists is_mt3 v bucket model_id).log
    steps false is_mt3 v = tt
    steps true false v = tt
    steps true true valid = tt
    steps true true unverifiable = tt
    steps true true corrupt =
        bind-All (IsQuiet key) (delete_model_prefix bucket model_id) (λ _. pure false)
          (delete_model_prefix-IsQuiet key bucket model_id) (λ _. tt)

append_cancel : (s a b : Text) → s ++ a ≡ s ++ b → a ≡ b
append_cancel [] a b h = h
append_cancel (c ∷ s) a b h = append_cancel s a b (cc h)

-- An object of the model under another name than the sentinel's.
upload-IsQuiet :
    (model_id name body : Text)
    → name ≢ ready_sentinel_name
    → IsQuiet
        (object_key model_id ready_sentinel_name)
        (upload_file (object_key model_id name) body)
unfolding present_after
upload-IsQuiet model_id name body other =
    let key = object_key model_id ready_sentinel_name in
    let k = object_key model_id name in
    elim (Bool-cases (text_eq k key)) [
      | inl same ↦ absurd (
          other (
            append_cancel (codes "/") name ready_sentinel_name (
              append_cancel model_id (codes "/" ++ name) (codes "/" ++ ready_sentinel_name)
                ((text_eq_iff k key).0 same))))
      | inr differs ↦ ap (λ (b : Bool). if b then true else false) differs
    ]

pub index-IsQuiet :
    (model_id : Text) (keys : List Text)
    → IsQuiet (object_key model_id ready_sentinel_name) (index_of model_id keys)
unfolding present_after
index-IsQuiet model_id keys = upload-IsQuiet model_id native_snapshot_index_name [] (λ h. cc h)

-- A file that is staged is not named like the sentinel.
abbrev pub IsStageable : Text × Text → Type 0
IsStageable file = file.0 ≢ ready_sentinel_name

module _ (takes : Command → Bool) (model_id : Text) where
  pub upload_one-IsQuiet :
      (name body : Text)
      → name ≢ ready_sentinel_name
      → All
          (IsQuiet (object_key model_id ready_sentinel_name))
          (upload_one takes model_id body name).log
  unfolding upload_one
  upload_one-IsQuiet name body other =
      issue-All (IsQuiet (object_key model_id ready_sentinel_name)) takes
        (upload_file (object_key model_id name) body) (upload-IsQuiet model_id name body other)

  upload_kept-IsQuiet :
      (o : Option (Text × Text)) (keys : List Text)
      → All IsStageable (add_kept o [])
      → All
          (IsQuiet (object_key model_id ready_sentinel_name))
          (upload_kept takes model_id o keys).log
  upload_kept-IsQuiet none keys h = tt
  upload_kept-IsQuiet (some (name, body)) keys h =
      bind-All (IsQuiet (object_key model_id ready_sentinel_name))
        (upload_one takes model_id body name) (λ _. pure (keys ++ (name ∷ [])))
        (upload_one-IsQuiet name body h.0) (λ _. tt)

  add_kept-All :
      (o : Option (Text × Text)) (files : List (Text × Text))
      → All IsStageable (add_kept o files)
      → All IsStageable (add_kept o []) × All IsStageable files
  add_kept-All none files h = (tt, h)
  add_kept-All (some file) files h = ((h.0, tt), h.1)

  pub upload_entries-IsQuiet :
      (entries : List Entry) (keys : List Text)
      → All IsStageable (kept_files entries)
      → All
          (IsQuiet (object_key model_id ready_sentinel_name))
          (upload_entries takes model_id entries keys).log
  unfolding upload_entries
  upload_entries-IsQuiet [] keys h = tt
  upload_entries-IsQuiet (entry ∷ rest) keys h =
      let (a, b) = add_kept-All (kept entry) (kept_files rest) h in
      bind-All (IsQuiet (object_key model_id ready_sentinel_name))
        (upload_kept takes model_id (kept entry) keys)
        (λ left. upload_entries takes model_id rest left) (upload_kept-IsQuiet (kept entry) keys a)
        (λ left. upload_entries-IsQuiet rest left b)
