-- ===== src/Cache/Access/History.antt =====
-- Where the sentinels of the cache come from: the calls of `get_model_path` that have made a disk.
use infernix.Prelude.{
  ◌≡◌, ◌⊎◌, inl, inr, refl, ap, sym, subst, ◌∙◌, Bool, false, none, some, List, [], ◌∷◌, Bool-cases,
  Option-cases, not, ltb, ℕ, ◌-◌, sum_of,
}
use infernix.Prelude.Text.{Text, codes, is_set, text_eq, text_eq_iff}
use infernix.Prelude.Dict.{lookup, put, erase, lookup-erase, lookup-put}
use infernix.Cache.Disk.{Disk, Entry, Slot, file_at, file_at-lookup, directories, slot_bytes}
use infernix.Cache.Config.{Result, ok, err, cache_quota_bytes}
use infernix.Cache.Lru.{rmtree, evict, enforce_lru_quota, sort_by_atime}
use infernix.Cache.Populate.{ready_sentinel_name}
use infernix.Cache.Populate.Ready.{ReadyAfter, populate-ReadyAfter}
use infernix.Cache.Populate.Frame.{Touched, populate-Touched, Touched-other}
use infernix.Cache.Access.{Around, is_ready, touch_access_time, after_populate, get_model_path}
use infernix.Cache.Access.Path.{populated}
use infernix.Cache.Access.Reachable.{
  IsCache, Reachable, empty_cache, called, Reachable-IsCache, file_at_old,
}

-- Among the calls that made the disk, one found the model not ready and its populate returned.
pub data WasPopulated (name : Text) : (d : Disk) → Reachable d → Type 0 where
  by_call :
      (a : Around) (d : Disk) (r : Reachable d)
      → is_ready name d ≡ false
      → (populated a name d).0 ≡ ok tt
      → WasPopulated name ((get_model_path a name d).1) (called a name r)
  earlier :
      (a : Around) (m : Text) (d : Disk) (r : Reachable d)
      → WasPopulated name d r
      → WasPopulated name ((get_model_path a m d).1) (called a m r)

-- The file is one of the old disk.
abbrev Keeps : Text → Text → Disk → Disk → Type 0
Keeps name path before after =
    (s : Text) → file_at name path after ≡ some s → file_at name path before ≡ some s

lookups-Keeps :
    (name path : Text) (before after : Disk)
    → ((e : Entry) → lookup name after ≡ some e → lookup name before ≡ some e)
    → Keeps name path before after
unfolding file_at
lookups-Keeps name path before after h s = elim (Option-cases (lookup name after)) [
  | inl absent ↦ rw (absent, file_at) (λ f. absurd (cc f))
  | inr (e, there) ↦ rw (there, file_at) (λ f. rw (h e there, file_at) f)
]

module _ (stuck : Text → Bool) (name : Text) where
  lookup-erase_inv :
      (k : Text) (d : Disk) (e : Entry) → lookup name (erase k d) ≡ some e → lookup name d ≡ some e
  lookup-erase_inv k d e h = elim (Bool-cases (text_eq k name)) [
    | inl y ↦ absurd (cc (rw (lookup-erase k name d, y) at h))
    | inr n ↦ rw (lookup-erase k name d, n) at h
  ]

  lookup-rmtree :
      (k : Text) (d : Disk) (e : Entry)
      → lookup name (rmtree stuck k d) ≡ some e
      → lookup name d ≡ some e
  unfolding rmtree
  lookup-rmtree k d e h = elim (Bool-cases (stuck k)) [
    | inl y ↦ rw y at h
    | inr n ↦ lookup-erase_inv k d e (rw n at h)
  ]

  lookup-evict :
      (quota total : ℕ) (victims : List Slot) (d : Disk) (e : Entry)
      → lookup name (evict stuck quota total victims d) ≡ some e
      → lookup name d ≡ some e
  unfolding evict
  lookup-evict quota total [] d e h = h
  lookup-evict quota total (last ∷ []) d e h = h
  lookup-evict quota total (victim ∷ next ∷ rest) d e h = elim (Bool-cases (ltb quota total)) [
    | inl y ↦ lookup-rmtree (victim.0) d e (
        lookup-evict quota (total - slot_bytes victim) (next ∷ rest) (rmtree stuck (victim.0) d) e
          (rw y at h))
    | inr n ↦ rw n at h
  ]

  enforce-Keeps :
      (path : Text) (quota : ℕ) (d : Disk) → Keeps name path d (enforce_lru_quota stuck quota d)
  unfolding enforce_lru_quota
  enforce-Keeps path quota d = lookups-Keeps name path d (enforce_lru_quota stuck quota d) (
      lookup-evict quota (sum_of slot_bytes (sort_by_atime (directories d)))
        (sort_by_atime (directories d)) d)

put-Keeps :
    (touched name path : Text) (e : Entry) (now : ℕ) (d : Disk)
    → lookup touched d ≡ some e
    → Keeps name path d (put touched (record e { atime = now }) d)
unfolding file_at
put-Keeps touched name path e now d there s = elim (Bool-cases (text_eq touched name)) [
  | inl y ↦
      let here : lookup name d ≡ some e =
        sym (ap (λ (n : Text). lookup n d) ((text_eq_iff touched name).0 y)) ∙ there in
      rw (lookup-put touched name (record e { atime = now }) d, y, here, file_at) (λ h. h)
  | inr n ↦ rw (lookup-put touched name (record e { atime = now }) d, n, file_at) (λ h. h)
]

touch-Keeps :
    (read_only : Bool) (now : ℕ) (touched name path : Text) (d : Disk)
    → Keeps name path d (touch_access_time read_only now touched d)
unfolding touch_access_time
touch-Keeps read_only now touched name path d s = elim (Option-cases (lookup touched d)) [
  | inl absent ↦ rw (absent, touch_access_time) (λ h. h)
  | inr (e, there) ↦ elim (Bool-cases read_only) [
    | inl y ↦ rw (there, touch_access_time, y) (λ h. h)
    | inr n ↦ rw (there, touch_access_time, n) (put-Keeps touched name path e now d there s)
  ]
]

after_populate-Keeps :
    (a : Around) (touched name path : Text) (m : Result (Unit {0}) × Disk)
    → Keeps name path (m.1) ((after_populate a touched m).1)
unfolding after_populate
after_populate-Keeps a touched name path (err e, d) s = λ h. h
after_populate-Keeps a touched name path (ok u, d) s = elim (Bool-cases (is_ready touched d)) [
  | inl ready ↦
      rw (ready, after_populate) (enforce-Keeps a.stuck name path (cache_quota_bytes a.config) d s)
  | inr missing ↦ rw (missing, after_populate) (λ h. h)
]

-- A sentinel after a populate is an old one, or that of its model, and then the populate returned.
populated_step :
    (now : ℕ) (name j s : Text) (d : Disk) (m : Result (Unit {0}) × Disk)
    → ReadyAfter name d m
    → Touched now name d m.1
    → file_at j ready_sentinel_name m.1 ≡ some s
    → (file_at j ready_sentinel_name d ≡ some s) ⊎ ((j ≡ name) × (m.0 ≡ ok tt))
populated_step now name j s d (u, after) r t h = elim (Bool-cases (text_eq j name)) [
  | inl same ↦ of_model u r ((text_eq_iff j name).0 same)
  | inr other ↦ inl (
      sym (
        file_at-lookup j ready_sentinel_name after d
          (Touched-other now name d after t j (λ p. cc (other, (text_eq_iff j name).1 p))))
      ∙ h)
]
  where
    of_model :
        (v : Result (Unit {0}))
        → ReadyAfter name d (v, after)
        → j ≡ name
        → (file_at j ready_sentinel_name d ≡ some s) ⊎ ((j ≡ name) × (v ≡ ok tt))
    of_model (ok w) q e = inr (e, refl)
    of_model (err x) q e = inl (
        ap (λ (n : Text). file_at n ready_sentinel_name d) e
        ∙ sym q
        ∙ sym (ap (λ (n : Text). file_at n ready_sentinel_name after) e)
        ∙ h)

-- The same of a call.
call_step :
    (a : Around) (name j s : Text) (d : Disk)
    → file_at j ready_sentinel_name ((get_model_path a name d).1) ≡ some s
    → (file_at j ready_sentinel_name d ≡ some s)
      ⊎ ((j ≡ name) × (is_ready name d ≡ false) × ((populated a name d).0 ≡ ok tt))
unfolding get_model_path
call_step a name j s d = elim (Bool-cases (not (is_set name))) [
  | inl empty ↦ rw (empty, get_model_path) (λ h. inl h)
  | inr given ↦ elim (Bool-cases (is_ready name d)) [
    | inl hit ↦
        rw (given, get_model_path, hit)
          (λ h. inl (touch-Keeps a.read_only a.now name j ready_sentinel_name d s h))
    | inr miss ↦
        rw (given, get_model_path, miss)
          (λ h.
            elim (populated_step a.now name j s d (populated a name d)
              (populate-ReadyAfter a.config a.boto3 a.client a.now name d)
              (populate-Touched a.config a.boto3 a.client a.now name d)
              (after_populate-Keeps a name j ready_sentinel_name (populated a name d) s h)) [
                | inl old ↦ inl old
                | inr (e, done) ↦ inr (e, refl, done)
              ])
  ]
]

was_populated :
    (d : Disk) (r : Reachable d) (j s : Text)
    → file_at j ready_sentinel_name d ≡ some s
    → WasPopulated j d r
unfolding file_at lookup
was_populated d empty_cache j s h = absurd (cc h)
was_populated d (called a name {d = d'} r) j s h = elim (call_step a name j s d' h) [
  | inl old ↦ earlier a name d' r (was_populated d' r j s old)
  | inr (e, miss, done) ↦
      subst (λ (n : Text). WasPopulated n ((get_model_path a name d').1) (called a name r)) (sym e)
        (by_call a d' r miss done)
]

-- After any sequence of calls from an empty cache, failed ones, refused removals and interrupted
-- downloads among them: no name stands twice below the cache root and everything there is a
-- directory; and a model has no sentinel, or it has the text that a populate writes, and then one of
-- the calls was for that model, found it not ready and had a populate that returned.
pub Reachable-IsKept :
    (d : Disk) (r : Reachable d) (name : Text)
    → IsCache d
      × ((file_at name ready_sentinel_name d ≡ none)
          ⊎ ((file_at name ready_sentinel_name d ≡ some (codes "populated-from-minio\n"))
              × WasPopulated name d r))
Reachable-IsKept d r name =
    let kept = Reachable-IsCache d r in
    (
      kept,
      elim (file_at_old name d kept) [
        | inl absent ↦ inl absent
        | inr wrote ↦ inr (wrote, was_populated d r name (codes "populated-from-minio\n") wrote)
      ],
    )
