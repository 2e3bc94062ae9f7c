-- ===== src/Bootstrap/Store.antt =====
-- The S3 client as python/adapters/model_bootstrap.py uses it. Reads are answered as the bucket
-- stood when the job began (the job reads nothing that it has written); writes are logged in order,
-- and may be refused, which raises.
use infernix.Prelude.{
  ℕ, ◌≡◌, Bool, true, false, Option, none, some, List, [], ◌∷◌, ◌++◌, if◌then◌else◌, refl,
}
use infernix.Prelude.Text.{Text, codes, text_eq, one_of}

pub data Command : Type 0 where
  delete_objects : List Text → Command
  put_object upload_file : Text → Text → Command

-- `paginate`: the `Contents` of its pages, one after the other, then its end or an exception.
pub record Listing : Type 0 where
  pub items : List (Option Text)
  pub breaks : Bool

-- `head_object` and `download_file` raise where they give `none`. A command is carried out as a whole
-- or raises: keys that a `delete_objects` reports as not deleted, which the code does not look at, are
-- not seen.
pub record Bucket : Type 0 where
  pub head_object : Text → Option ℕ
  pub list_objects : Text → Listing
  pub download_file : Text → Option Text
  pub takes : Command → Bool

-- A step that may raise (`none`), with the commands that were carried out.
pub record Run (A : Type 0) : Type 0 where
  pub result : Option A
  pub log : List Command

abbrev pub pure : {A : Type 0} → A → Run A
pure a = record { result = some a; log = [] }

abbrev pub raise : {A : Type 0} → Run A
raise = record { result = none; log = [] }

abbrev pub continue : {A B : Type 0} → Option A → List Command → (A → Run B) → Run B
continue none log f = record { result = none; log = log }
continue (some a) log f = record { result = (f a).result; log = log ++ (f a).log }

infixl 5 ◌>>=◌ ◌>>◌
abbrev pub ◌>>=◌ : {A B : Type 0} → Run A → (A → Run B) → Run B
m >>= f = continue m.result m.log f

abbrev pub ◌>>◌ : {B : Type 0} → Run (Unit {0}) → Run B → Run B
m >> n = m >>= λ _. n

abbrev pub perform : Bool → Command → Run (Unit {0})
perform true c = record { result = some tt; log = c ∷ [] }
perform false c = raise

unfoldable pub issue : (Command → Bool) → Command → Run (Unit {0})
issue takes c = perform (takes c) c

abbrev pub ready_sentinel_name : Text
ready_sentinel_name = codes ".ready"

abbrev pub native_snapshot_index_name : Text
native_snapshot_index_name = codes ".infernix-native-snapshot-files"

-- f"{model_id}/{name}"
abbrev pub object_key : Text → Text → Text
object_key model_id name = model_id ++ (codes "/" ++ name)

-- `_sentinel_exists`
unfoldable pub sentinel_exists : Bucket → Text → Bool
sentinel_exists bucket model_id =
    elim (bucket.head_object (object_key model_id ready_sentinel_name)) [
      | none ↦ false
      | some _ ↦ true
    ]

-- `_write_ready_sentinel`
unfoldable pub write_ready_sentinel : (Command → Bool) → Text → Run (Unit {0})
unfolding issue
write_ready_sentinel takes model_id =
    issue takes (put_object (object_key model_id ready_sentinel_name) (codes "ready\n"))

-- `_upload_file`
unfoldable pub upload_one : (Command → Bool) → Text → Text → Text → Run (Unit {0})
unfolding issue
upload_one takes model_id body relative_key =
    issue takes (upload_file (object_key model_id relative_key) body)

-- Whether the object of a key is there after one command.
unfoldable pub present_after : Text → Bool → Command → Bool
unfolding one_of text_eq
present_after key there (delete_objects keys) = if one_of key keys then false else there
present_after key there (put_object k _) = if text_eq k key then true else there
present_after key there (upload_file k _) = if text_eq k key then true else there

-- A chain that gives a result: its first step gave one, and the logs follow each other.
pub continue_inv :
    {A B : Type 0} (o : Option A) (log : List Command) (f : A → Run B) (b : B)
    → (continue o log f).result ≡ some b
    → (a : A) × (o ≡ some a) × ((f a).result ≡ some b) × ((continue o log f).log ≡ log ++ (f a).log)
continue_inv none log f b h = absurd (cc h)
continue_inv (some a) log f b h = (a, refl, h, refl)

pub perform_inv :
    (b : Bool) (c : Command) (u : Unit {0})
    → (perform b c).result ≡ some u
    → (b ≡ true) × ((perform b c).log ≡ c ∷ [])
perform_inv true c u h = (refl, refl)
perform_inv false c u h = absurd (cc h)

pub issue_inv :
    (takes : Command → Bool) (c : Command) (u : Unit {0})
    → (issue takes c).result ≡ some u
    → (takes c ≡ true) × ((issue takes c).log ≡ c ∷ [])
unfolding issue
issue_inv takes c u h = perform_inv (takes c) c u h
