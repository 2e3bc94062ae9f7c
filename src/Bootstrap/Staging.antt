-- ===== src/Bootstrap/Staging.antt =====
-- `_upload_directory` of python/adapters/model_bootstrap.py and the tests it makes of a staged file.
use infernix.Prelude.{
  ◌≡◌, refl, ap, sym, ◌∙◌, Bool, true, false, Option, none, some, List, [], ◌∷◌, ◌++◌, map, any_of,
}
use mathlib.Core.List.{append_assoc, append-nil}
use infernix.Prelude.Text.{Text, codes, one_of, join}
use infernix.Bootstrap.Store.{
  Command, put_object, upload_file, Run, pure, ◌>>=◌, issue, issue_inv, continue_inv, object_key,
  native_snapshot_index_name, upload_one,
}

-- What `rglob` yields: the parts of a path below the root, and the contents if it is a file.
pub record Entry : Type 0 where
  pub parts : List Text
  pub body : Option Text

-- `_skip_snapshot_file`
unfoldable pub skip_snapshot_file : Entry → Bool
unfolding one_of
skip_snapshot_file entry =
    any_of
      (λ (part : Text). one_of part (codes ".cache" ∷ codes ".locks" ∷ codes "__pycache__" ∷ []))
      entry.parts

abbrev pub unless_skipped : Bool → Text → Text → Option (Text × Text)
unless_skipped true relative_key body = none
unless_skipped false relative_key body = some (relative_key, body)

abbrev pub kept_file : Bool → List Text → Option Text → Option (Text × Text)
kept_file skipped parts none = none
kept_file skipped parts (some body) = unless_skipped skipped (join (codes "/") parts) body

-- The relative key and the contents of an entry that is uploaded.
unfoldable pub kept : Entry → Option (Text × Text)
kept entry = kept_file (skip_snapshot_file entry) entry.parts entry.body

abbrev pub upload_kept :
    (Command → Bool) → Text → Option (Text × Text) → List Text → Run (List Text)
upload_kept takes model_id none uploaded_keys = pure uploaded_keys
upload_kept takes model_id (some (relative_key, body)) uploaded_keys =
    upload_one takes model_id body relative_key >>= λ _. pure (uploaded_keys ++ (relative_key ∷ []))

-- The loop; its result is `uploaded_keys`.
unfoldable pub upload_entries : (Command → Bool) → Text → List Entry → List Text → Run (List Text)
upload_entries takes model_id [] uploaded_keys = pure uploaded_keys
upload_entries takes model_id (entry ∷ rest) uploaded_keys =
    upload_kept takes model_id (kept entry) uploaded_keys >>= λ keys.
    upload_entries takes model_id rest keys

-- The index of the snapshot: a line for each key.
abbrev pub index_of : Text → List Text → Command
index_of model_id uploaded_keys =
    put_object (object_key model_id native_snapshot_index_name)
      (join (codes "\n") uploaded_keys ++ codes "\n")

unfoldable pub put_index : (Command → Bool) → Text → List Text → Run (Unit {0})
put_index takes model_id uploaded_keys = issue takes (index_of model_id uploaded_keys)

-- `_upload_directory`, on the entries as `sorted` gives them.
unfoldable pub upload_directory : (Command → Bool) → Text → List Entry → Run (Unit {0})
upload_directory takes model_id entries =
    upload_entries takes model_id entries [] >>= λ keys. put_index takes model_id keys

abbrev pub add_kept : Option (Text × Text) → List (Text × Text) → List (Text × Text)
add_kept none rest = rest
add_kept (some file) rest = file ∷ rest

-- The files of a list of entries that are uploaded, in order.
abbrev pub kept_files : List Entry → List (Text × Text)
kept_files [] = []
kept_files (entry ∷ rest) = add_kept (kept entry) (kept_files rest)

abbrev pub upload_of : Text → Text × Text → Command
upload_of model_id file = upload_file (object_key model_id file.0) file.1

abbrev pub keys_of_files : List (Text × Text) → List Text
keys_of_files files = map (λ (file : Text × Text). file.0) files

map-add_kept :
    {A : Type 0} (f : Text × Text → A) (o : Option (Text × Text)) (files : List (Text × Text))
    → map f (add_kept o files) ≡ map f (add_kept o []) ++ map f files
map-add_kept f none files = refl
map-add_kept f (some file) files = refl

module _ (takes : Command → Bool) (model_id : Text) where
  upload_kept_lem :
      (o : Option (Text × Text)) (keys left : List Text)
      → (upload_kept takes model_id o keys).result ≡ some left
      → (left ≡ keys ++ keys_of_files (add_kept o []))
        × ((upload_kept takes model_id o keys).log ≡ map (upload_of model_id) (add_kept o []))
  unfolding upload_one
  upload_kept_lem none keys left h = (sym (cc h) ∙ sym (append-nil keys), refl)
  upload_kept_lem (some (key, body)) keys left h =
      let c = upload_file (object_key model_id key) body in
      let (u, i, r, l) =
        continue_inv (issue takes c).result (issue takes c).log (λ _. pure (keys ++ (key ∷ [])))
          left h in
      (sym (cc r), l ∙ ap (λ (t : List Command). t ++ []) (issue_inv takes c u i).1)

  upload_entries_lem :
      (entries : List Entry) (keys left : List Text)
      → (upload_entries takes model_id entries keys).result ≡ some left
      → (left ≡ keys ++ keys_of_files (kept_files entries))
        × ((upload_entries takes model_id entries keys).log
            ≡ map (upload_of model_id) (kept_files entries))
  unfolding upload_entries
  upload_entries_lem [] keys left h = (sym (cc h) ∙ sym (append-nil keys), refl)
  upload_entries_lem (entry ∷ rest) keys left h =
      let first = upload_kept takes model_id (kept entry) keys in
      let (mid, m, r, l) =
        continue_inv first.result first.log (λ k. upload_entries takes model_id rest k) left h in
      let (a, b) = upload_kept_lem (kept entry) keys mid m in
      let (c, d) = upload_entries_lem rest mid left r in
      let files = kept_files rest in
      (
        c
            ∙ ap (λ (t : List Text). t ++ keys_of_files files) a
            ∙ append_assoc keys (keys_of_files (add_kept (kept entry) [])) (keys_of_files files)
            ∙ ap (λ (t : List Text). keys ++ t) (sym (map-add_kept (λ f. f.0) (kept entry) files)),
        l
            ∙ ap (λ (t : List Command). t ++ (upload_entries takes model_id rest mid).log) b
            ∙ ap (λ (t : List Command). map (upload_of model_id) (add_kept (kept entry) []) ++ t) d
            ∙ sym (map-add_kept (upload_of model_id) (kept entry) files),
      )

  -- An upload of a directory that succeeds sends the files that are not skipped, in their order,
  -- and then, as its last command, the index, whose lines are the keys of exactly those files.
  pub upload_directory_indexed :
      (entries : List Entry) (u : Unit {0})
      → (upload_directory takes model_id entries).result ≡ some u
      → (upload_directory takes model_id entries).log
        ≡ map (upload_of model_id) (kept_files entries)
          ++ (index_of model_id (keys_of_files (kept_files entries)) ∷ [])
  unfolding upload_directory put_index
  upload_directory_indexed entries u h =
      let loop = upload_entries takes model_id entries [] in
      let (keys, m, r, l) =
        continue_inv loop.result loop.log (λ k. put_index takes model_id k) u h in
      let (a, b) = upload_entries_lem entries [] keys m in
      l
      ∙ ap (λ (t : List Command). t ++ (put_index takes model_id keys).log) b
      ∙ ap (λ (t : List Command). map (upload_of model_id) (kept_files entries) ++ t)
          ((issue_inv takes (index_of model_id keys) u r).1
            ∙ ap (λ (k : List Text). index_of model_id k ∷ []) a)
