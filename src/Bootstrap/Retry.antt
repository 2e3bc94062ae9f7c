-- ===== src/Bootstrap/Retry.antt =====
-- The downloads of python/adapters/model_bootstrap.py that are tried again:
-- `_download_hugging_face_snapshot` (ten attempts) and `_download_mt3_pytorch_pretrained` (three).
-- What an attempt meets is an argument, indexed by the attempt; a sleep is logged in seconds.
use infernix.Prelude.{
  ℕ, zero, suc, ◌+◌, ◌*◌, ◌^◌, ◌≤◌, ◌<◌, ◌≡◌, refl, ap, sym, ◌∙◌, min, Bool, true, false, Option,
  none, some, List, [], ◌∷◌, length, ltb, inl, inr, ◌⊎◌, subst, All, arith,
}
use infernix.Prelude.Text.{Text, codes}
use infernix.Bootstrap.Payload.{Response, download_single_payload}
use infernix.Bootstrap.Validity.{Readers, validate_mt3_pytorch_snapshot}

-- An attempt returns, raises one of the caught errors, or raises another one.
pub data Attempt (A : Type 0) : Type 0 where
  done : A → Attempt A
  transient : Attempt A
  fatal : Attempt A

pub record Tries (A : Type 0) : Type 0 where
  pub result : Option A
  pub sleeps : List ℕ

abbrev pub slept : {A : Type 0} → ℕ → Tries A → Tries A
slept seconds rest = record { result = rest.result; sleeps = seconds ∷ rest.sleeps }

abbrev pub settle_attempt : {A : Type 0} → Attempt A → ℕ → Tries A → Tries A
settle_attempt (done a) seconds rest = record { result = some a; sleeps = [] }
settle_attempt transient seconds rest = slept seconds rest
settle_attempt fatal seconds rest = record { result = none; sleeps = [] }

-- `for attempt in range(10)`, from `attempt` on, with `left` attempts to come.
unfoldable pub snapshot_loop : {A : Type 0} → (ℕ → Attempt A) → ℕ → ℕ → Tries A
snapshot_loop tries zero attempt = record { result = none; sleeps = [] }
snapshot_loop tries (suc left) attempt =
    settle_attempt (tries attempt) (min 60 (5 * 2 ^ attempt))
      (snapshot_loop tries left (suc attempt))

-- `_download_hugging_face_snapshot`
unfoldable pub download_hugging_face_snapshot : {A : Type 0} → (ℕ → Attempt A) → Tries A
unfolding snapshot_loop
download_hugging_face_snapshot tries = snapshot_loop tries 10 0

-- One attempt at the two files of the checkpoint: their contents, where they download and are valid.
abbrev pub accept_files : Bool → Text → Text → Option (Text × Text)
accept_files true config checkpoint = some (config, checkpoint)
accept_files false config checkpoint = none

abbrev pub check_files : Readers → Option Text → Option Text → Option (Text × Text)
check_files readers none checkpoint = none
check_files readers (some config) none = none
check_files readers (some config) (some checkpoint) =
    accept_files (validate_mt3_pytorch_snapshot readers config checkpoint) config checkpoint

abbrev pub mt3_config_url : Text
mt3_config_url =
    codes "https://raw.githubusercontent.com/kunato/mt3-pytorch/master/pretrained/config.json"

abbrev pub mt3_checkpoint_url : Text
mt3_checkpoint_url =
    codes "https://media.githubusercontent.com/media/kunato/mt3-pytorch/master/pretrained/mt3.pth"

unfoldable pub mt3_attempt : Readers → (Text → Option Response) → Option (Text × Text)
mt3_attempt readers urlopen =
    check_files readers (download_single_payload urlopen mt3_config_url)
      (download_single_payload urlopen mt3_checkpoint_url)

abbrev pub pause : {A : Type 0} → Bool → ℕ → Tries A → Tries A
pause true seconds rest = slept seconds rest
pause false seconds rest = rest

abbrev pub settle_mt3 : Option (Text × Text) → ℕ → Tries (Text × Text) → Tries (Text × Text)
settle_mt3 (some files) attempt rest = record { result = some files; sleeps = [] }
settle_mt3 none attempt rest = pause (ltb attempt 2) (5 * (attempt + 1)) rest

unfoldable pub mt3_loop : Readers → (ℕ → Text → Option Response) → ℕ → ℕ → Tries (Text × Text)
mt3_loop readers urlopen zero attempt = record { result = none; sleeps = [] }
mt3_loop readers urlopen (suc left) attempt =
    settle_mt3 (mt3_attempt readers (urlopen attempt)) attempt
      (mt3_loop readers urlopen left (suc attempt))

-- `_download_mt3_pytorch_pretrained`: what the two files hold. The files of a failed attempt are
-- removed, so nothing of it is left where the result is `none`.
unfoldable pub download_mt3_pytorch_pretrained :
    Readers → (ℕ → Text → Option Response) → Tries (Text × Text)
unfolding mt3_loop
download_mt3_pytorch_pretrained readers urlopen = mt3_loop readers urlopen 3 0

plus_zero : (n : ℕ) → n ≡ n + 0
plus_zero n = omega arith

plus_suc : (n k : ℕ) → suc n + k ≡ n + suc k
plus_suc n k = omega arith

zero_plus : (k : ℕ) → 0 + k ≡ k
zero_plus k = omega arith

module _ {A : Type 0} (tries : ℕ → Attempt A) (a : A) where
  -- The loop gives `a` after `k` sleeps of at most a minute.
  abbrev pub EndsAfter : ℕ → Tries A → Type 0
  EndsAfter k t = (t.result ≡ some a) × (length t.sleeps ≡ k) × All (λ (s : ℕ). s ≤ 60) t.sleeps

  snapshot_loop_done :
      (k left attempt : ℕ)
      → k < left
      → tries (attempt + k) ≡ done a
      → ((j : ℕ) → j < k → tries (attempt + j) ≡ transient)
      → EndsAfter k (snapshot_loop tries left attempt)
  unfolding snapshot_loop
  snapshot_loop_done k zero attempt fits last before = absurd (omega arith)
  snapshot_loop_done zero (suc left) attempt fits last before =
      let now : tries attempt ≡ done a = ap tries (plus_zero attempt) ∙ last in
      subst
        (λ (t : Attempt A).
          EndsAfter 0
            (settle_attempt t (min 60 (5 * 2 ^ attempt)) (snapshot_loop tries left (suc attempt))))
        (sym now) (refl, refl, tt)
  snapshot_loop_done (suc k) (suc left) attempt fits last before =
      let now : tries attempt ≡ transient = ap tries (plus_zero attempt) ∙ before 0 (omega arith) in
      let (r, n, b) =
        snapshot_loop_done k left (suc attempt) (omega arith) (ap tries (plus_suc attempt k) ∙ last)
          (λ j h. ap tries (plus_suc attempt j) ∙ before (suc j) (omega arith)) in
      subst
        (λ (t : Attempt A).
          EndsAfter (suc k)
            (settle_attempt t (min 60 (5 * 2 ^ attempt)) (snapshot_loop tries left (suc attempt))))
        (sym now) (r, ap suc n, (omega arith, b))

  -- Where one of the ten attempts at a snapshot returns and those before it met only errors that
  -- are caught, the download gives what that attempt gave, after one sleep of at most a minute for
  -- each attempt that failed.
  pub snapshot_download_retried :
      (k : ℕ)
      → k < 10
      → tries k ≡ done a
      → ((j : ℕ) → j < k → tries j ≡ transient)
      → EndsAfter k (download_hugging_face_snapshot tries)
  unfolding download_hugging_face_snapshot
  snapshot_download_retried k fits last before =
      snapshot_loop_done k 10 0 fits (ap tries (zero_plus k) ∙ last)
        (λ j h. ap tries (zero_plus j) ∙ before j h)

accept_files_inv :
    (b : Bool) (c k config checkpoint : Text)
    → accept_files b c k ≡ some (config, checkpoint)
    → (c ≡ config) × (k ≡ checkpoint) × (b ≡ true)
accept_files_inv true c k config checkpoint h = (cc h, cc h, refl)
accept_files_inv false c k config checkpoint h = absurd (cc h)

-- The two files of an attempt that returns were downloaded, and pass the check.
abbrev pub Fetched : Readers → (Text → Option Response) → Text → Text → Type 0
Fetched readers urlopen config checkpoint =
    (download_single_payload urlopen mt3_config_url ≡ some config)
    × (download_single_payload urlopen mt3_checkpoint_url ≡ some checkpoint)
    × (validate_mt3_pytorch_snapshot readers config checkpoint ≡ true)

check_files_inv :
    (readers : Readers) (c k : Option Text) (config checkpoint : Text)
    → check_files readers c k ≡ some (config, checkpoint)
    → (c ≡ some config)
      × (k ≡ some checkpoint)
      × (validate_mt3_pytorch_snapshot readers config checkpoint ≡ true)
check_files_inv readers none k config checkpoint h = absurd (cc h)
check_files_inv readers (some c) none config checkpoint h = absurd (cc h)
check_files_inv readers (some c) (some k) config checkpoint h =
    let (a, b, v) =
      accept_files_inv (validate_mt3_pytorch_snapshot readers c k) c k config checkpoint h in
    (
      ap (λ (t : Text). some t) a,
      ap (λ (t : Text). some t) b,
      ap (λ (t : Text). validate_mt3_pytorch_snapshot readers t checkpoint) (sym a)
          ∙ ap (λ (t : Text). validate_mt3_pytorch_snapshot readers c t) (sym b)
          ∙ v,
    )

pause-result : {A : Type 0} (b : Bool) (s : ℕ) (t : Tries A) → (pause b s t).result ≡ t.result
pause-result true s t = refl
pause-result false s t = refl

module _ (readers : Readers) (urlopen : ℕ → Text → Option Response) (config checkpoint : Text) where
  settle_mt3_inv :
      (o : Option (Text × Text)) (attempt : ℕ) (rest : Tries (Text × Text))
      → (settle_mt3 o attempt rest).result ≡ some (config, checkpoint)
      → (o ≡ some (config, checkpoint)) ⊎ (rest.result ≡ some (config, checkpoint))
  settle_mt3_inv (some files) attempt rest h = inl h
  settle_mt3_inv none attempt rest h =
      inr (sym (pause-result (ltb attempt 2) (5 * (attempt + 1)) rest) ∙ h)

  mt3_loop_inv :
      (left attempt : ℕ)
      → (mt3_loop readers urlopen left attempt).result ≡ some (config, checkpoint)
      → (k : ℕ) × (k < attempt + left) × Fetched readers (urlopen k) config checkpoint
  unfolding mt3_loop mt3_attempt
  mt3_loop_inv zero attempt h = absurd (cc h)
  mt3_loop_inv (suc left) attempt h =
      elim (settle_mt3_inv (mt3_attempt readers (urlopen attempt)) attempt
        (mt3_loop readers urlopen left (suc attempt)) h) [
          | inl now ↦ (
            attempt,
            omega arith,
            check_files_inv readers (download_single_payload (urlopen attempt) mt3_config_url)
                (download_single_payload (urlopen attempt) mt3_checkpoint_url) config checkpoint
                now,
          )
          | inr later ↦
              let (k, fits, f) = mt3_loop_inv left (suc attempt) later in (k, omega arith, f)
        ]

  -- The MT3 files that are staged come from one and the same of the three attempts, and pass the
  -- check of the checkpoint: never a mix of attempts, nor a file that was not validated.
  pub mt3_staged_is_valid :
      (download_mt3_pytorch_pretrained readers urlopen).result ≡ some (config, checkpoint)
      → (k : ℕ) × (k < 3) × Fetched readers (urlopen k) config checkpoint
  unfolding download_mt3_pytorch_pretrained
  mt3_staged_is_valid h = let (k, fits, f) = mt3_loop_inv 3 0 h in (k, omega arith, f)
