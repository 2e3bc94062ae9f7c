-- ===== src/Publish.antt =====
-- How the job of python/adapters/model_bootstrap.py and the cache of python/adapters/model_cache.py
-- meet: in the objects of the bucket that the one writes and the other reads.
pub mod Loads
pub mod Payload
mod Tests
use infernix.Prelude.{ℕ, ◌≡◌, true, some, List, [], ◌∷◌, In}
use infernix.Prelude.Text.{Text, starts_with}
use infernix.Prelude.Dict.{Dict, lookup, put, erase}
use infernix.Bootstrap.Store.{Command, delete_objects, put_object, upload_file}
use infernix.Cache.Populate.{Client, Page, complete, keys_of_pages}

-- The objects of the bucket, by their keys.
abbrev pub Objects : Type 0
Objects = Dict Text

abbrev pub erase_keys : List Text → Objects → Objects
erase_keys [] objects = objects
erase_keys (key ∷ keys) objects = erase_keys keys (erase key objects)

abbrev pub after_command : Command → Objects → Objects
after_command (delete_objects keys) objects = erase_keys keys objects
after_command (put_object key body) objects = put key body objects
after_command (upload_file key body) objects = put key body objects

-- The objects after the commands of a job.
abbrev pub after_log : List Command → Objects → Objects
after_log [] objects = objects
after_log (c ∷ log) objects = after_log log (after_command c objects)

-- The client answers as S3 does for a bucket that holds these objects: a listing has the keys with
-- the prefix and no other, and a download writes the whole object.
pub record Serves (client : Client) (bucket : Text) (objects : Objects) : Type 0 where
  pub pages : Text → List Page
  pub paginates : (prefix : Text) → client.paginate bucket prefix ≡ some (pages prefix)
  pub lists :
      (prefix key body : Text)
      → lookup key objects ≡ some body
      → starts_with key prefix ≡ true
      → In key (keys_of_pages (pages prefix))
  pub holds :
      (prefix key : Text)
      → In key (keys_of_pages (pages prefix))
      → (body : Text) × (lookup key objects ≡ some body)
  pub downloads :
      (key body : Text)
      → lookup key objects ≡ some body
      → client.download_fileobj bucket key ≡ complete body
