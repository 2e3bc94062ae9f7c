-- ===== src/Cache/Access/Reachable.antt =====
-- What holds of the cache's directory after any sequence of calls of `get_model_path`, of any model
-- ids, with any configuration, client and clock, and any removals refused.
use infernix.Prelude.{
  ◌≡◌, ◌⊎◌, inl, inr, refl, ap, sym, subst, ◌∙◌, Bool, true, none, some, List, [], ◌∷◌, Bool-cases,
  Option-cases, not, ltb, ℕ, ◌-◌, sum_of,
}
use infernix.Prelude.Text.{Text, codes, text_eq, is_set}
use infernix.Prelude.Dict.{Distinct, lookup, put, erase, put-Distinct, erase-Distinct}
use infernix.Cache.Disk.{
  Disk, Entry, Slot, dir, is_dir_node, files_of, file_at, directories, slot_bytes,
}
use infernix.Cache.Config.{Result, ok, err, cache_quota_bytes}
use infernix.Cache.Lru.{rmtree, evict, enforce_lru_quota, sort_by_atime}
use infernix.Cache.Populate.{Files, ready_sentinel_name}
use infernix.Cache.Populate.Ready.{ReadyAfter, populate-ReadyAfter, file_at-with_files}
use infernix.Cache.Populate.Frame.{populate-Touched}
use infernix.Cache.Access.{Around, is_ready, touch_access_time, after_populate, get_model_path}
use infernix.Cache.Access.Path.{populated}

-- A disk that calls have made from an empty one.
pub data Reachable : Disk → Type 0 where
  empty_cache : Reachable []
  called :
      (a : Around) (name : Text) {d : Disk} → Reachable d → Reachable ((get_model_path a name d).1)

-- A directory whose sentinel, if it has one, has the text that a populate writes.
abbrev pub IsModelDir : Entry → Type 0
IsModelDir e =
    (is_dir_node e.node ≡ true)
    × ((lookup ready_sentinel_name (files_of e.node) ≡ none)
        ⊎ (lookup ready_sentinel_name (files_of e.node) ≡ some (codes "populated-from-minio\n")))

abbrev pub Entries : (Entry → Type 0) → Disk → Type 0
Entries P [] = Unit
Entries P ((k, e) ∷ d) = P e × Entries P d

-- One entry for each name, each of them a model's directory.
abbrev pub IsCache : Disk → Type 0
IsCache d = Distinct d × Entries IsModelDir d

module _ (P : Entry → Type 0) where
  Entries-lookup : (k : Text) (e : Entry) (d : Disk) → Entries P d → lookup k d ≡ some e → P e
  unfolding lookup
  Entries-lookup k e [] h f = absurd (cc f)
  Entries-lookup k e ((j, e') ∷ d) h f = elim (Bool-cases (text_eq j k)) [
    | inl same ↦ subst P (inside e' (rw same at f)) (h.0)
    | inr other ↦ Entries-lookup k e d (h.1) (rw other at f)
  ]
    where
      inside : (x : Entry) → some x ≡ some e → x ≡ e
      inside x q = cc q

  Entries-put : (k : Text) (e : Entry) (d : Disk) → P e → Entries P d → Entries P (put k e d)
  unfolding put
  Entries-put k e [] p h = (p, tt)
  Entries-put k e ((j, e') ∷ d) p h = elim (Bool-cases (text_eq j k)) [
    | inl same ↦ rw same (p, h.1)
    | inr other ↦ rw other (h.0, Entries-put k e d p (h.1))
  ]

  Entries-erase : (k : Text) (d : Disk) → Entries P d → Entries P (erase k d)
  unfolding erase
  Entries-erase k [] h = tt
  Entries-erase k ((j, e) ∷ d) h = elim (Bool-cases (text_eq j k)) [
    | inl same ↦ rw same (Entries-erase k d (h.1))
    | inr other ↦ rw other (h.0, Entries-erase k d (h.1))
  ]

erase-IsCache : (k : Text) (d : Disk) → IsCache d → IsCache (erase k d)
erase-IsCache k d h = (erase-Distinct k d (h.0), Entries-erase IsModelDir k d (h.1))

put-IsCache : (k : Text) (e : Entry) (d : Disk) → IsModelDir e → IsCache d → IsCache (put k e d)
put-IsCache k e d p h = (put-Distinct k e d (h.0), Entries-put IsModelDir k e d p (h.1))

module _ (stuck : Text → Bool) where
  rmtree-IsCache : (name : Text) (d : Disk) → IsCache d → IsCache (rmtree stuck name d)
  unfolding rmtree
  rmtree-IsCache name d h = elim (Bool-cases (stuck name)) [
    | inl e ↦ rw e h
    | inr e ↦ rw e (erase-IsCache name d h)
  ]

  evict-IsCache :
      (quota total : ℕ) (victims : List Slot) (d : Disk)
      → IsCache d
      → IsCache (evict stuck quota total victims d)
  unfolding evict
  evict-IsCache quota total [] d h = h
  evict-IsCache quota total (last ∷ []) d h = h
  evict-IsCache quota total (victim ∷ next ∷ rest) d h = elim (Bool-cases (ltb quota total)) [
    | inl e ↦ rw e (
        evict-IsCache quota (total - slot_bytes victim) (next ∷ rest) (rmtree stuck (victim.0) d)
          (rmtree-IsCache (victim.0) d h))
    | inr e ↦ rw e h
  ]

  enforce-IsCache : (quota : ℕ) (d : Disk) → IsCache d → IsCache (enforce_lru_quota stuck quota d)
  unfolding enforce_lru_quota
  enforce-IsCache quota d h =
      evict-IsCache quota (sum_of slot_bytes (sort_by_atime (directories d)))
        (sort_by_atime (directories d)) d h

touch-IsCache :
    (read_only : Bool) (now : ℕ) (name : Text) (d : Disk)
    → IsCache d
    → IsCache (touch_access_time read_only now name d)
unfolding touch_access_time
touch-IsCache read_only now name d h = elim (Option-cases (lookup name d)) [
  | inl absent ↦ rw (absent, touch_access_time) h
  | inr (e, there) ↦ elim (Bool-cases read_only) [
    | inl y ↦ rw (there, touch_access_time, y) h
    | inr n ↦
        rw (there, touch_access_time, n)
          (put-IsCache name (record e { atime = now }) d
            (Entries-lookup IsModelDir name e d (h.1) there) h)
  ]
]

-- A populate keeps the invariant: what it leaves is the disk with new files in one directory, and
-- the sentinel among them is the old one, none, or the one it wrote.
sentinel_of :
    (name : Text) (d after : Disk) (u : Result (Unit {0}))
    → ReadyAfter name d (u, after)
    → (file_at name ready_sentinel_name after ≡ file_at name ready_sentinel_name d)
      ⊎ (file_at name ready_sentinel_name after ≡ some (codes "populated-from-minio\n"))
sentinel_of name d after (ok u) r = inr (r.2)
sentinel_of name d after (err x) r = inl r

pub file_at_old :
    (name : Text) (d : Disk)
    → IsCache d
    → (file_at name ready_sentinel_name d ≡ none)
      ⊎ (file_at name ready_sentinel_name d ≡ some (codes "populated-from-minio\n"))
unfolding file_at
file_at_old name d h = elim (Option-cases (lookup name d)) [
  | inl absent ↦ rw (absent, file_at) (inl refl)
  | inr (e, there) ↦
      let (is, sentinel) = Entries-lookup IsModelDir name e d (h.1) there in
      rw (there, file_at) sentinel
]

populated-IsCache :
    (a : Around) (name : Text) (d : Disk) → IsCache d → IsCache ((populated a name d).1)
populated-IsCache a name d h =
    let after = (populated a name d).1 in
    let t = populate-Touched a.config a.boto3 a.client a.now name d in
    let sentinel : (file_at name ready_sentinel_name after ≡ none)
        ⊎ (file_at name ready_sentinel_name after ≡ some (codes "populated-from-minio\n")) =
      elim (sentinel_of name d after ((populated a name d).0)
        (populate-ReadyAfter a.config a.boto3 a.client a.now name d)) [
          | inl kept ↦ elim (file_at_old name d h) [
            | inl e ↦ inl (kept ∙ e)
            | inr e ↦ inr (kept ∙ e)
          ]
          | inr wrote ↦ inr wrote
        ] in
    elim t [
      | inl same ↦ subst IsCache (sym same) h
      | inr (old, e, files, made, written) ↦ subst IsCache (sym written) (
          put-IsCache name (record { atime = e.atime; node = dir files }) d
            (refl, of_written after old e files written sentinel) h)
    ]
  where
    of_written :
        (after : Disk) (old : Files) (e : Entry) (files : Files)
        → after ≡ put name (record { atime = e.atime; node = dir files }) d
        → (file_at name ready_sentinel_name after ≡ none)
          ⊎ (file_at name ready_sentinel_name after ≡ some (codes "populated-from-minio\n"))
        → (lookup ready_sentinel_name files ≡ none)
          ⊎ (lookup ready_sentinel_name files ≡ some (codes "populated-from-minio\n"))
    of_written after old e files written =
        let looked : lookup ready_sentinel_name files ≡ file_at name ready_sentinel_name after =
          sym (file_at-with_files name ready_sentinel_name e files d)
          ∙ ap (λ (x : Disk). file_at name ready_sentinel_name x) (sym written) in
        λ s. elim s [ inl absent ↦ inl (looked ∙ absent) | inr wrote ↦ inr (looked ∙ wrote) ]

after_populate-IsCache :
    (a : Around) (name : Text) (m : Result (Unit {0}) × Disk)
    → IsCache (m.1)
    → IsCache ((after_populate a name m).1)
unfolding after_populate
after_populate-IsCache a name (err e, d) h = h
after_populate-IsCache a name (ok u, d) h = elim (Bool-cases (is_ready name d)) [
  | inl ready ↦
      rw (ready, after_populate) (enforce-IsCache a.stuck (cache_quota_bytes a.config) d h)
  | inr missing ↦ rw (missing, after_populate) h
]

get_model_path-IsCache :
    (a : Around) (name : Text) (d : Disk) → IsCache d → IsCache ((get_model_path a name d).1)
unfolding get_model_path
get_model_path-IsCache a name d h = elim (Bool-cases (not (is_set name))) [
  | inl empty ↦ rw (empty, get_model_path) h
  | inr given ↦ elim (Bool-cases (is_ready name d)) [
    | inl hit ↦ rw (given, get_model_path, hit) (touch-IsCache a.read_only a.now name d h)
    | inr miss ↦
        rw (given, get_model_path, miss)
          (after_populate-IsCache a name (populated a name d) (populated-IsCache a name d h))
  ]
]

-- After any sequence of calls from an empty cache, failed ones, refused removals and interrupted
-- downloads among them: no name stands twice below the cache root, everything there is a directory,
-- and a sentinel in it has the text that a populate writes.
pub Reachable-IsCache : (d : Disk) → Reachable d → IsCache d
Reachable-IsCache d empty_cache = (tt, tt)
Reachable-IsCache d (called a name {d = d'} r) =
    get_model_path-IsCache a name d' (Reachable-IsCache d' r)
