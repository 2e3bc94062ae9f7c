-- ===== src/Cache/Lru.antt =====
-- `_enforce_lru_quota` of python/adapters/model_cache.py.
pub mod Sort
pub mod Member
pub mod Evict
pub mod Erase
pub mod Quota
use infernix.Prelude.{ℕ, ◌-◌, Bool, true, false, List, [], ◌∷◌, ltb, leb, if◌then◌else◌, sum_of}
use infernix.Prelude.Text.{Text}
use infernix.Prelude.Dict.{erase}
use infernix.Cache.Disk.{Disk, Slot, slot_bytes, directories}

abbrev pub atime_of : Slot → ℕ
atime_of (_, e) = e.atime

-- One step of a stable sort: a slot goes in front of those that are no older.
unfoldable pub insert_slot : Slot → List Slot → List Slot
insert_slot s [] = s ∷ []
insert_slot s (t ∷ ts) =
    let later = t ∷ insert_slot s ts in if leb (atime_of s) (atime_of t) then s ∷ t ∷ ts else later

-- `sorted(entries, key=lambda entry: entry.stat().st_atime)`
unfoldable pub sort_by_atime : List Slot → List Slot
unfolding insert_slot
sort_by_atime [] = []
sort_by_atime (s ∷ ss) = insert_slot s (sort_by_atime ss)

-- `shutil.rmtree(victim, ignore_errors=True)`: a tree that `stuck` names stays as it is.
module _ (stuck : Text → Bool) where
  unfoldable pub rmtree : Text → Disk → Disk
  rmtree name d = if stuck name then d else erase name d

  -- The eviction loop over `entries[eviction_index:]`. `len(entries) - 1` keeps the last one.
  unfoldable pub evict : ℕ → ℕ → List Slot → Disk → Disk
  unfolding rmtree
  evict quota total [] d = d
  evict quota total (last ∷ []) d = d
  evict quota total (victim ∷ next ∷ rest) d =
      let after = evict quota (total - slot_bytes victim) (next ∷ rest) (rmtree (victim.0) d) in
      if ltb quota total then after else d

  unfoldable pub enforce_lru_quota : ℕ → Disk → Disk
  unfolding evict sort_by_atime directories
  enforce_lru_quota quota d =
      let entries = sort_by_atime (directories d) in
      evict quota (sum_of slot_bytes entries) entries d
