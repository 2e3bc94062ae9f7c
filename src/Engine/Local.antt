-- ===== src/Engine/Local.antt =====
-- What the engines of python/adapters/transformers_python.py, diffusers_python.py and
-- pytorch_python.py share: the device, and the model's directory before or after the imports.
use infernix.Prelude.{◌≡◌, refl, Bool, true, false, Option, none, some}
use infernix.Prelude.Text.{Text}
use infernix.Cache.Config.{CacheError, Result, ok, err}
use infernix.Cache.Disk.{Disk}
use infernix.Cache.Access.{Around, ModelDir, get_model_path}
use infernix.Artifact.Upload.{TransferError, Downloaded, payload, download_failed}

pub data TorchDevice : Type 0 where
  mps cuda cpu : TorchDevice

-- The backends that torch has, and whether each is available.
pub record Torch : Type 0 where
  pub mps_available : Option Bool
  pub cuda_available : Option Bool

abbrev unless_mps : Option Bool → TorchDevice → TorchDevice
unless_mps (some true) rest = mps
unless_mps (some false) rest = rest
unless_mps none rest = rest

abbrev cuda_or_cpu : Option Bool → TorchDevice
cuda_or_cpu (some true) = cuda
cuda_or_cpu (some false) = cpu
cuda_or_cpu none = cpu

-- `_preferred_torch_device`
unfoldable pub preferred_torch_device : Torch → TorchDevice
preferred_torch_device torch = unless_mps torch.mps_available (cuda_or_cpu torch.cuda_available)

-- `dtype` is `float16` on an accelerator.
abbrev pub is_half : TorchDevice → Bool
is_half mps = true
is_half cuda = true
is_half cpu = false

pub data FamilyError : Type 0 where
  packages_missing model_unloadable engine_raised : FamilyError
  weights_missing : CacheError → FamilyError
  input_missing : TransferError → FamilyError
  unsupported_mt3 unwired_mt3 unwired_family : Text → FamilyError

-- How a family's function ends.
pub data Made (A : Type 0) : Type 0 where
  made : A → Made A
  raised : FamilyError → Made A

-- A call of the packages; `none` is whatever it raises.
abbrev pub from_engine : {A B : Type 0} → Option A → (A → Made B) → Made B
from_engine none next = raised engine_raised
from_engine (some a) next = next a

abbrev pub from_loader : {A B : Type 0} → Option A → (A → Made B) → Made B
from_loader none next = raised model_unloadable
from_loader (some a) next = next a

abbrev pub from_input : {B : Type 0} → Downloaded → (Text → Made B) → Made B
from_input (download_failed e) next = raised (input_missing e)
from_input (payload body) next = next body

-- The imports that follow the weights.
abbrev pub if_installed : {A : Type 0} → Bool → Made A → Made A
if_installed false rest = raised packages_missing
if_installed true rest = rest

abbrev pub use_weights : {A : Type 0} → Result ModelDir × Disk → (ModelDir → Made A) → Made A × Disk
use_weights (err e, d) next = (raised (weights_missing e), d)
use_weights (ok weights_dir, d) next = (next weights_dir, d)

-- `get_model_path(context.model_id)`, and what follows it, on the disk as it leaves it.
abbrev pub with_weights : {A : Type 0} → Around → Text → Disk → (ModelDir → Made A) → Made A × Disk
with_weights around model_id d next = use_weights (get_model_path around model_id d) next

-- The imports that come before the weights.
abbrev pub after_imports : {A : Type 0} → Bool → Disk → Made A × Disk → Made A × Disk
after_imports false d rest = (raised packages_missing, d)
after_imports true d rest = rest

pub use_weights_inv :
    {A : Type 0} (found : Result ModelDir × Disk) (next : ModelDir → Made A) (a : A)
    → (use_weights found next).0 ≡ made a
    → (weights_dir : ModelDir) × (found.0 ≡ ok weights_dir)
      × (next weights_dir ≡ made a)
      × ((use_weights found next).1 ≡ found.1)
use_weights_inv (err e, d) next a h = absurd (cc h)
use_weights_inv (ok weights_dir, d) next a h = (weights_dir, refl, h, refl)

pub after_imports_inv :
    {A : Type 0} (b : Bool) (d : Disk) (rest : Made A × Disk) (a : A)
    → (after_imports b d rest).0 ≡ made a
    → (after_imports b d rest ≡ rest) × (b ≡ true)
after_imports_inv true d rest a h = (refl, refl)
after_imports_inv false d rest a h = absurd (cc h)

pub from_engine_inv :
    {A B : Type 0} (o : Option A) (next : A → Made B) (b : B)
    → from_engine o next ≡ made b
    → (a : A) × (o ≡ some a) × (next a ≡ made b)
from_engine_inv none next b h = absurd (cc h)
from_engine_inv (some a) next b h = (a, refl, h)

pub if_installed_inv :
    {A : Type 0} (b : Bool) (rest : Made A) (a : A) → if_installed b rest ≡ made a → rest ≡ made a
if_installed_inv true rest a h = h
if_installed_inv false rest a h = absurd (cc h)
