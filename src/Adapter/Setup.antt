-- ===== src/Adapter/Setup.antt =====
-- The write of the bootstrap manifest by `run_setup_bootstrap` of python/adapters/common.py, step by
-- step, so that a crash after any step can be looked at. A write may take several steps: `amounts`
-- are what the kernel takes of each, one byte at least.
pub mod Atomic
use infernix.Prelude.{
  ℕ, suc, Bool, true, false, Option, none, some, List, [], ◌∷◌, ◌++◌, take, drop,
}
use infernix.Prelude.Text.{Text, codes}

pub data Phase : Type 0 where
  opening syncing replacing syncing_directory finished : Phase
  writing : Text → Phase

-- The files `.bootstrap.json.tmp` and `bootstrap.json`, whether the bytes of the staged file and the
-- entries of the directory are on the disk, and where the function is.
pub record Setup : Type 0 where
  pub phase : Phase
  pub staging : Option Text
  pub manifest : Option Text
  pub content_durable : Bool
  pub directory_durable : Bool

abbrev append_staging : Text → Option Text → Option Text
append_staging bytes none = none
append_staging bytes (some old) = some (old ++ bytes)

-- The manifest's text; `quoted` is the adapter id as `json.dumps` writes it.
abbrev pub manifest_text : Text → Text
manifest_text quoted =
    codes "{\n  \"adapterId\": " ++ (quoted ++ codes ",\n  \"schemaVersion\": 1\n}\n")

abbrev write_some : ℕ → Text → Setup → Setup
write_some amount [] s = record s { phase = syncing }
write_some amount (c ∷ rest) s = record s {
  staging = append_staging (c ∷ take amount rest) s.staging;
  phase = writing (drop amount rest);
}

abbrev pub step_phase : Text → ℕ → Phase → Setup → Setup
step_phase payload amount opening s = record s {
  staging = some [];
  content_durable = false;
  directory_durable = false;
  phase = writing payload;
}
step_phase payload amount (writing rest) s = write_some amount rest s
step_phase payload amount syncing s = record s { content_durable = true; phase = replacing }
step_phase payload amount replacing s = record s {
  manifest = s.staging;
  staging = none;
  phase = syncing_directory;
}
step_phase payload amount syncing_directory s = record s {
  directory_durable = true;
  phase = finished;
}
step_phase payload amount finished s = s

unfoldable pub setup_step : Text → ℕ → Setup → Setup
setup_step payload amount s = step_phase payload amount s.phase s

-- The state after as many steps as there are amounts.
unfoldable pub run_setup_bootstrap : Text → List ℕ → Setup → Setup
unfolding setup_step
run_setup_bootstrap payload [] s = s
run_setup_bootstrap payload (amount ∷ rest) s =
    run_setup_bootstrap payload rest (setup_step payload amount s)

abbrev pub before_setup : Option Text → Option Text → Setup
before_setup staging manifest = record {
  phase = opening;
  staging = staging;
  manifest = manifest;
  content_durable = false;
  directory_durable = false;
}
