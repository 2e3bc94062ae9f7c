-- ===== src/Cache/Access/Evicted.antt =====
-- Whether the directory that `get_model_path` returns survives the eviction of the same call.
use infernix.Prelude.{
  ◌<◌, ◌≡◌, ◌≢◌, inl, inr, refl, ap, sym, subst, ◌∙◌, true, false, none, some, arith, Option-cases,
  length,
}
use infernix.Prelude.Text.{Text, is_set}
use infernix.Prelude.Dict.{Distinct, lookup}
use infernix.Cache.Disk.{
  Disk, Entry, is_dir, is_file, file_at, directories, disk_bytes, is_dir_node, is_dir_slot,
}
use infernix.Cache.Config.{Result, ok, err, cache_quota_bytes}
use infernix.Cache.Lru.{enforce_lru_quota}
use infernix.Cache.Lru.Quota.{
  enforce_fits, enforce_order, enforce_keeps_latest, enforce_needed, enforce_survivor,
}
use infernix.Cache.Populate.{ready_sentinel_name}
use infernix.Cache.Populate.Ready.{ReadyAfter, populate-ReadyAfter}
use infernix.Cache.Populate.Frame.{
  Touched, populate-Touched, Touched-other, Touched-Distinct, Touched_fresh, Touched_stale,
}
use infernix.Cache.Access.{Around, ModelDir, is_ready, after_populate, get_model_path}
use infernix.Cache.Access.Path.{populated, as_dir}

abbrev pub Works : Around → Type 0
Works a = (k : Text) → a.stuck k ≡ false

lookup_of_is_dir :
    (name : Text) (d : Disk)
    → is_dir name d ≡ true
    → (e : Entry) × (lookup name d ≡ some e) × (is_dir_node e.node ≡ true)
unfolding is_dir
lookup_of_is_dir name d h = elim (Option-cases (lookup name d)) [
  | inl absent ↦ cc (rw (absent, is_dir) at h)
  | inr (e, there) ↦ (e, there, rw (there, is_dir) at h)
]

is_ready-lookup :
    (name : Text) (c d : Disk) → lookup name c ≡ lookup name d → is_ready name c ≡ is_ready name d
unfolding is_ready is_dir is_file
is_ready-lookup name c d same = rw (same, is_dir, is_file, file_at) refl

pub not_ready_of_absent : (name : Text) (d : Disk) → lookup name d ≡ none → is_ready name d ≡ false
unfolding is_ready is_dir
not_ready_of_absent name d absent = rw (absent, is_dir) refl

miss_step :
    (a : Around) (name : Text) (d : Disk)
    → is_set name ≡ true
    → is_ready name d ≡ false
    → get_model_path a name d ≡ after_populate a name (populated a name d)
unfolding get_model_path
miss_step a name d given miss = rw (given, get_model_path, miss) refl

enforced_step :
    (a : Around) (name : Text) (d : Disk)
    → is_ready name d ≡ true
    → after_populate a name (ok tt, d)
      ≡ (as_dir a name (ok tt), enforce_lru_quota a.stuck (cache_quota_bytes a.config) d)
unfolding after_populate
enforced_step a name d ready = rw (ready, after_populate) refl

ready_of_parts :
    (name : Text) (d : Disk)
    → (is_dir name d ≡ true) × (is_file name ready_sentinel_name d ≡ true)
    → is_ready name d ≡ true
unfolding is_ready
ready_of_parts name d (is, there) = rw (is, there) refl

module _ (a : Around) (works : Works a) (name : Text) (d : Disk) (u : Distinct d) where
  oldest_evicted :
      (e : Entry)
      → lookup name d ≡ some e
      → is_dir_node e.node ≡ true
      → ((j : Text) (f : Entry) → lookup j d ≡ some f → j ≢ name → e.atime < f.atime)
      → cache_quota_bytes a.config < disk_bytes d
      → 1 < length (directories d)
      → lookup name (enforce_lru_quota a.stuck (cache_quota_bytes a.config) d) ≡ none
  oldest_evicted e there is newer over many =
      let quota = cache_quota_bytes a.config in
      let left = enforce_lru_quota a.stuck quota d in
      elim (Option-cases (lookup name left)) [
        | inl gone ↦ gone
        | inr (f, stays) ↦
            let same : f ≡ e =
              ground (arith, there, enforce_survivor a.stuck works quota d u name f stays) in
            let is_f : is_dir_slot (name, f) ≡ true = rw same is in
            elim (enforce_needed a.stuck works quota d u) [
              | inl whole ↦ elim (enforce_fits a.stuck works quota d u) [
                | inl fits ↦ absurd (omega (arith, ap (λ (x : Disk). disk_bytes x) whole))
                | inr one ↦ absurd (omega (arith, ap (λ (x : Disk). length (directories x)) whole))
              ]
              | inr (k, ek, found, gone, needed) ↦
                  let other : k ≢ name =
                    λ p. cc (stays, gone, ap (λ (t : Text). lookup t left) p) in
                  let order =
                    enforce_order a.stuck works quota d u k name ek f found gone stays is_f in
                  absurd
                    (omega (arith, newer k ek found other, order, ap (λ (x : Entry). x.atime) same))
            ]
      ]

module _ (a : Around) (works : Works a) (name : Text) (d : Disk) (u : Distinct d) where
  fresh_same :
      (m : Result (Unit {0}) × Disk)
      → lookup name d ≡ none
      → ((j : Text) (f : Entry) → lookup j d ≡ some f → f.atime < a.now)
      → ReadyAfter name d m
      → Touched a.now name d m.1
      → m.0 ≡ ok tt
      → lookup name (after_populate a name m).1 ≡ lookup name m.1
  fresh_same (err e, after) absent clock r t h = cc h
  fresh_same (ok _, after) absent clock r t h =
      let ready = ready_of_parts name after (r.0, r.1) in
      let (e, there, is) = lookup_of_is_dir name after r.0 in
      let newest : e.atime ≡ a.now = Touched_fresh a.now name d after t e absent there in
      let kept =
        enforce_keeps_latest a.stuck works (cache_quota_bytes a.config) after
          (Touched-Distinct a.now name d after t u) name e there is
          (λ j f found ne.
            omega
              (arith, newest, clock j f (sym (Touched-other a.now name d after t j ne) ∙ found))) in
      ap (λ (x : Result ModelDir × Disk). lookup name x.1) (enforced_step a name after ready)
      ∙ kept
      ∙ sym there

  fresh_ready :
      (m : Result (Unit {0}) × Disk) → ReadyAfter name d m → m.0 ≡ ok tt → is_ready name m.1 ≡ true
  fresh_ready (err e, after) r h = cc h
  fresh_ready (ok _, after) r h = ready_of_parts name after (r.0, r.1)

  -- Under the conditions of `returned_is_ready`: the model's directory is as its populate left it.
  pub returned_same :
      is_set name ≡ true
      → lookup name d ≡ none
      → ((j : Text) (f : Entry) → lookup j d ≡ some f → f.atime < a.now)
      → (populated a name d).0 ≡ ok tt
      → lookup name (get_model_path a name d).1 ≡ lookup name (populated a name d).1
  returned_same given absent clock h =
      ap (λ (x : Result ModelDir × Disk). lookup name x.1)
        (miss_step a name d given (not_ready_of_absent name d absent))
      ∙ fresh_same (populated a name d) absent clock
          (populate-ReadyAfter a.config a.boto3 a.client a.now name d)
          (populate-Touched a.config a.boto3 a.client a.now name d) h

  -- Where no two entries have one name and every removal succeeds: a model whose directory was not
  -- there is on the disk, with its sentinel, when its populate returned and the clock is past every
  -- access time, so the eviction does not take it away again.
  pub returned_is_ready :
      is_set name ≡ true
      → lookup name d ≡ none
      → ((j : Text) (f : Entry) → lookup j d ≡ some f → f.atime < a.now)
      → (populated a name d).0 ≡ ok tt
      → is_ready name (get_model_path a name d).1 ≡ true
  returned_is_ready given absent clock h =
      is_ready-lookup name (get_model_path a name d).1 (populated a name d).1
        (returned_same given absent clock h)
      ∙ fresh_ready (populated a name d)
          (populate-ReadyAfter a.config a.boto3 a.client a.now name d) h

  stale_step :
      (old : Entry) (m : Result (Unit {0}) × Disk)
      → lookup name d ≡ some old
      → ((j : Text) (f : Entry) → lookup j d ≡ some f → j ≢ name → old.atime < f.atime)
      → ReadyAfter name d m
      → Touched a.now name d m.1
      → m.0 ≡ ok tt
      → cache_quota_bytes a.config < disk_bytes m.1
      → 1 < length (directories m.1)
      → ((after_populate a name m).0 ≡ as_dir a name (ok tt))
        × (lookup name (after_populate a name m).1 ≡ none)
  stale_step old (err e, after) here newer r t h over many = cc h
  stale_step old (ok _, after) here newer r t h over many =
      let ready = ready_of_parts name after (r.0, r.1) in
      let (e, there, is) = lookup_of_is_dir name after r.0 in
      let still : e.atime ≡ old.atime = Touched_stale a.now name d after t old e here there in
      let step = enforced_step a name after ready in
      let gone =
        oldest_evicted a works name after (Touched-Distinct a.now name d after t u) e there is
          (λ j f found ne.
            omega
              (arith, still, newer j f (sym (Touched-other a.now name d after t j ne) ∙ found) ne))
          over many in
      (
        ap (λ (x : Result ModelDir × Disk). x.0) step,
        ap (λ (x : Result ModelDir × Disk). lookup name x.1) step ∙ gone,
      )

  -- Where no two entries have one name and every removal succeeds: a model whose directory is left
  -- over from an earlier, failed populate keeps that directory's access time. If its populate
  -- returns, every other entry was used later, and the finished cache is over the quota and has a
  -- second directory, then the call returns the model's directory after it has removed it.
  pub stale_model_evicted :
      (old : Entry)
      → is_set name ≡ true
      → is_ready name d ≡ false
      → lookup name d ≡ some old
      → ((j : Text) (f : Entry) → lookup j d ≡ some f → j ≢ name → old.atime < f.atime)
      → (populated a name d).0 ≡ ok tt
      → cache_quota_bytes a.config < disk_bytes (populated a name d).1
      → 1 < length (directories (populated a name d).1)
      → ((get_model_path a name d).0 ≡ as_dir a name (ok tt))
        × (lookup name (get_model_path a name d).1 ≡ none)
  stale_model_evicted old given miss here newer h over many =
      subst
        (λ (x : Result ModelDir × Disk). (x.0 ≡ as_dir a name (ok tt)) × (lookup name x.1 ≡ none))
        (sym (miss_step a name d given miss))
        (stale_step old (populated a name d) here newer
          (populate-ReadyAfter a.config a.boto3 a.client a.now name d)
          (populate-Touched a.config a.boto3 a.client a.now name d) h over many)
