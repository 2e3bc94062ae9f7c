-- ===== src/Runner/Isolation.antt =====
-- `_verify_expected_source_isolation` of python/native-runners/apple_native_runner.py. What opening
-- a path does is an argument.
use infernix.Prelude.{
  ℕ, ◌≡◌, refl, Bool, true, false, not, ◌&&◌, Option, none, some, List, [], ◌∷◌, ◌++◌, ◌==◌, leb,
  length, drop, all_of, All, if◌then◌else◌,
}
use infernix.Prelude.Text.{Text, codes, text_eq, one_of, starts_with, has_char}
use infernix.Runner.{
  RunnerArgs, invalid_isolation_contract, sentinel_unreadable, sentinel_empty,
  source_directory_empty, source_directory_denial, source_directory_readable, source_file_denial,
  source_file_readable, write_probe_denial, write_probe_writable, Ended, returned, failed, crashed,
  Done, done, and_then, and_then_inv, require, require_inv,
}

-- What `next(path.iterdir())`, or opening a file, does: for a directory, `nothing_there` is an empty
-- one; for a file, one that is missing.
pub data Attempt : Type 0 where
  allowed nothing_there denied other_error : Attempt

-- The file system as the process sees it; `sentinel` is the runner's own first byte.
pub record Sources : Type 0 where
  pub sentinel : Option Text
  pub list_directory : Text → Attempt
  pub open_file : Text → Attempt
  pub open_for_writing : Text → Attempt

abbrev is_absent : {A : Type 0} → Option A → Bool
is_absent none = true
is_absent (some a) = false

abbrev is_blank : {A : Type 0} → List A → Bool
is_blank [] = true
is_blank (x ∷ xs) = false

abbrev pub is_unrequested : RunnerArgs → Bool
is_unrequested args =
    is_blank args.expected_unavailable_source_directories
    && (is_blank args.expected_unavailable_source_files
        && (is_absent args.expected_unavailable_source_write_probe
            && is_blank args.source_isolation_receipt))

-- `receipt.removeprefix("sha256:")`
unfoldable pub remove_prefix : Text → Text → Text
remove_prefix p s = if starts_with s p then drop (length p) s else s

-- `len(set(paths)) == len(paths)`
abbrev pub no_repeats : List Text → Bool
no_repeats [] = true
no_repeats (p ∷ ps) = not (one_of p ps) && no_repeats ps

abbrev pub is_absolute : Text → Bool
is_absolute path = starts_with path (codes "/")

abbrev pub is_probe : List Text → Option Text → Bool
is_probe files none = false
is_probe files (some path) = one_of path files && is_absolute path

abbrev pub is_hex_digest : Text → Bool
is_hex_digest digest =
    (length digest == 64) && all_of (λ (c : ℕ). has_char c (codes "0123456789abcdef")) digest

abbrev pub source_paths : RunnerArgs → List Text
source_paths args =
    args.expected_unavailable_source_directories ++ args.expected_unavailable_source_files

-- The negation of the test before the first access.
unfoldable pub is_contract : RunnerArgs → Bool
unfolding remove_prefix
is_contract args =
    args.smoke_only
    && ((length args.expected_unavailable_source_directories == 1)
        && (leb (length args.expected_unavailable_source_files) 512
            && (no_repeats (source_paths args)
                && (all_of is_absolute (source_paths args)
                    && (is_probe args.expected_unavailable_source_files
                          args.expected_unavailable_source_write_probe
                        && (is_hex_digest
                              (remove_prefix (codes "sha256:") args.source_isolation_receipt)
                            && text_eq args.source_isolation_receipt (
                                codes "sha256:"
                                ++ remove_prefix (codes "sha256:")
                                    args.source_isolation_receipt)))))))

abbrev pub check_sentinel : Option Text → Ended Done
check_sentinel none = failed sentinel_unreadable 70
check_sentinel (some []) = failed sentinel_empty 70
check_sentinel (some (byte ∷ rest)) = returned done

abbrev pub check_directory : Text → Attempt → Ended Done
check_directory path denied = returned done
check_directory path nothing_there = failed (source_directory_empty path) 70
check_directory path other_error = failed (source_directory_denial path) 70
check_directory path allowed = failed (source_directory_readable path) 70

-- Opening a file that is not there is an `OSError` other than `PermissionError`.
abbrev pub check_file : Text → Attempt → Ended Done
check_file path denied = returned done
check_file path nothing_there = failed (source_file_denial path) 70
check_file path other_error = failed (source_file_denial path) 70
check_file path allowed = failed (source_file_readable path) 70

abbrev pub check_each : (Text → Ended Done) → List Text → Ended Done
check_each check [] = returned done
check_each check (path ∷ paths) = and_then (check path) (λ u. check_each check paths)

abbrev write_attempt : Text → Attempt → Ended Done
write_attempt path denied = returned done
write_attempt path nothing_there = failed (write_probe_denial path) 70
write_attempt path other_error = failed (write_probe_denial path) 70
write_attempt path allowed = failed (write_probe_writable path) 70

abbrev pub check_probe : (Text → Attempt) → Option Text → Ended Done
check_probe open_for_writing none = crashed
check_probe open_for_writing (some path) = write_attempt path (open_for_writing path)

-- The accesses, in order.
abbrev pub check_denials : Sources → RunnerArgs → Ended Done
check_denials sources args = and_then (check_sentinel sources.sentinel) (λ a.
    and_then
      (check_each (λ (path : Text). check_directory path (sources.list_directory path))
        args.expected_unavailable_source_directories)
      (λ b.
        and_then
          (check_each (λ (path : Text). check_file path (sources.open_file path))
            args.expected_unavailable_source_files)
          (λ c. check_probe sources.open_for_writing args.expected_unavailable_source_write_probe)))

abbrev pub announce : RunnerArgs → Ended (Option (ℕ × Text))
announce args = returned (some (length (source_paths args), args.source_isolation_receipt))

-- `if not directories and not files and ...: return`
abbrev pub unless_unrequested : Bool → Ended (Option (ℕ × Text)) → Ended (Option (ℕ × Text))
unless_unrequested true rest = returned none
unless_unrequested false rest = rest

-- The number and the digest of the line that goes to standard error, where there is one.
unfoldable pub verify_expected_source_isolation : Sources → RunnerArgs → Ended (Option (ℕ × Text))
verify_expected_source_isolation sources args = unless_unrequested (is_unrequested args) (
    and_then (require (is_contract args) invalid_isolation_contract 64)
      (λ a. and_then (check_denials sources args) (λ b. announce args)))

requested :
    (b : Bool) (rest : Ended (Option (ℕ × Text))) (line : ℕ × Text)
    → unless_unrequested b rest ≡ returned (some line)
    → rest ≡ returned (some line)
requested true rest line h = absurd (cc h)
requested false rest line h = h

directory_denied :
    (path : Text) (a : Attempt) (u : Done) → check_directory path a ≡ returned u → a ≡ denied
directory_denied path denied u h = refl
directory_denied path _ u h = absurd (cc h)

file_denied : (path : Text) (a : Attempt) (u : Done) → check_file path a ≡ returned u → a ≡ denied
file_denied path denied u h = refl
file_denied path _ u h = absurd (cc h)

write_denied :
    (path : Text) (a : Attempt) (u : Done) → write_attempt path a ≡ returned u → a ≡ denied
write_denied path denied u h = refl
write_denied path _ u h = absurd (cc h)

each_denied :
    (check : Text → Attempt → Ended Done) (attempt : Text → Attempt)
    → ((path : Text) (a : Attempt) (u : Done) → check path a ≡ returned u → a ≡ denied)
    → (paths : List Text) (u : Done)
    → check_each (λ (path : Text). check path (attempt path)) paths ≡ returned u
    → All (λ (path : Text). attempt path ≡ denied) paths
each_denied check attempt only [] u h = tt
each_denied check attempt only (path ∷ paths) u h =
    let (a, e, rest) =
      and_then_inv (check path (attempt path))
        (λ v. check_each (λ (p : Text). check p (attempt p)) paths) u h in
    (only path (attempt path) a e, each_denied check attempt only paths u rest)

probe_denied :
    (open_for_writing : Text → Attempt) (o : Option Text) (u : Done)
    → check_probe open_for_writing o ≡ returned u
    → (path : Text) × (o ≡ some path) × (open_for_writing path ≡ denied)
probe_denied open_for_writing none u h = absurd (cc h)
probe_denied open_for_writing (some path) u h =
    (path, refl, write_denied path (open_for_writing path) u h)

-- The contract holds and every access that the receipt is about was denied.
abbrev pub IsDenied : Sources → RunnerArgs → ℕ → Text → Type 0
IsDenied sources args n receipt =
    (is_contract args ≡ true)
    × (n ≡ length (source_paths args))
    × (receipt ≡ args.source_isolation_receipt)
    × All (λ (path : Text). sources.list_directory path ≡ denied)
        args.expected_unavailable_source_directories
    × All (λ (path : Text). sources.open_file path ≡ denied) args.expected_unavailable_source_files
    × ((path : Text) × (args.expected_unavailable_source_write_probe ≡ some path)
        × (sources.open_for_writing path ≡ denied))

-- A receipt is written only for a smoke run whose contract holds, with the number of the source
-- paths and the digest that was asked for, after listing every named directory, opening every named
-- file and opening the write probe were each denied.
pub receipt_means-IsDenied :
    (sources : Sources) (args : RunnerArgs) (n : ℕ) (receipt : Text)
    → verify_expected_source_isolation sources args ≡ returned (some (n, receipt))
    → IsDenied sources args n receipt
unfolding verify_expected_source_isolation
receipt_means-IsDenied sources args n receipt h =
    let g = requested (is_unrequested args) _ (n, receipt) h in
    let (a, contract, g1) =
      and_then_inv (require (is_contract args) invalid_isolation_contract 64) _ (some (n, receipt))
        g in
    let (b, denials, g2) = and_then_inv (check_denials sources args) _ (some (n, receipt)) g1 in
    let (c, readable, d1) = and_then_inv (check_sentinel sources.sentinel) _ b denials in
    let (d, listed, d2) =
      and_then_inv
        (check_each (λ (path : Text). check_directory path (sources.list_directory path))
          args.expected_unavailable_source_directories)
        _ b d1 in
    let (e, opened, d3) =
      and_then_inv
        (check_each (λ (path : Text). check_file path (sources.open_file path))
          args.expected_unavailable_source_files)
        _ b d2 in
    (
      require_inv (is_contract args) invalid_isolation_contract 64 a contract,
      cc g2,
      cc g2,
      each_denied check_directory sources.list_directory directory_denied
          args.expected_unavailable_source_directories d listed,
      each_denied check_file sources.open_file file_denied args.expected_unavailable_source_files e
          opened,
      probe_denied sources.open_for_writing args.expected_unavailable_source_write_probe b d3,
    )
