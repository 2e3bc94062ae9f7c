-- ===== src/Cache/Disk.antt =====
-- The directory under the cache root, as python/adapters/model_cache.py uses it.
-- A cache root that does not exist is a disk with no entry.
use infernix.Prelude.{
  ◌≡◌, refl, ℕ, Bool, true, false, Option, none, some, List, [], length, sum_of, keep_if,
}
use infernix.Prelude.Text.{Text}
use infernix.Prelude.Dict.{Dict, lookup}

-- A directory holds its files by their path below it, at any depth.
pub data Node : Type 0 where
  file : Text → Node
  dir : Dict Text → Node

pub record Entry : Type 0 where
  pub atime : ℕ
  pub node : Node

abbrev pub Disk : Type 0
Disk = Dict Entry

abbrev pub Slot : Type 0
Slot = Text × Entry

abbrev pub is_dir_node : Node → Bool
is_dir_node (file _) = false
is_dir_node (dir _) = true

abbrev pub files_of : Node → Dict Text
files_of (file _) = []
files_of (dir files) = files

abbrev pub is_dir_slot : Slot → Bool
is_dir_slot (_, e) = is_dir_node e.node

-- `_directory_size_bytes`: every regular file below the directory counts.
unfoldable pub directory_size_bytes : Entry → ℕ
directory_size_bytes e = sum_of (λ (f : Text × Text). length f.1) (files_of e.node)

abbrev pub slot_bytes : Slot → ℕ
slot_bytes (_, e) = directory_size_bytes e

-- The directories among the entries, in the order that `iterdir` gives them.
unfoldable pub directories : Disk → List Slot
directories d = keep_if is_dir_slot d

-- The bytes that all directories hold.
unfoldable pub disk_bytes : Disk → ℕ
disk_bytes d = sum_of slot_bytes (directories d)

-- `(root / name).is_dir()`
unfoldable pub is_dir : Text → Disk → Bool
is_dir name d = elim (lookup name d) [ none ↦ false | some e ↦ is_dir_node e.node ]

-- `(root / name / path)` as a regular file: its content.
unfoldable pub file_at : Text → Text → Disk → Option Text
file_at name path d = elim (lookup name d) [ none ↦ none | some e ↦ lookup path (files_of e.node) ]

pub file_at-lookup :
    (name path : Text) (c d : Disk)
    → lookup name c ≡ lookup name d
    → file_at name path c ≡ file_at name path d
unfolding file_at
file_at-lookup name path c d same = rw (same, file_at) refl

abbrev pub is_some {ℓ} : {A : Type ℓ} → Option A → Bool
is_some none = false
is_some (some _) = true

-- `(root / name / path).is_file()`
unfoldable pub is_file : Text → Text → Disk → Bool
unfolding file_at
is_file name path d = is_some (file_at name path d)
