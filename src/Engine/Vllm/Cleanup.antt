-- ===== src/Engine/Vllm/Cleanup.antt =====
-- `_release_vllm_engine` of python/adapters/vllm_python.py. Which calls raise, whether the engine has
-- a core and a callable `sleep`, and whether CUDA is available are arguments; reading an attribute
-- does not raise.
use infernix.Prelude.{
  ◌≡◌, inl, refl, Bool, true, false, Option, none, some, List, [], ◌∷◌, ◌++◌, if◌then◌else◌, In,
  In-append_left, In-append_right,
}

-- The calls and imports in the order of the source.
pub data CleanupCall : Type 0 where
  shutdown sleep import_parallel_state cleanup_dist_env_and_memory : CleanupCall
  import_torch is_available synchronize empty_cache ipc_collect gc_collect : CleanupCall

pub record Handle : Type 0 where
  pub has_engine_core : Bool
  pub has_sleep : Bool

-- The calls made under `with suppress(Exception)`: those up to the first that raises, which is
-- forgotten.
abbrev suppress : (CleanupCall → Bool) → List CleanupCall → List CleanupCall
suppress raises [] = []
suppress raises (c ∷ cs) = let rest = suppress raises cs in c ∷ (if raises c then [] else rest)

abbrev suppress_if : Bool → (CleanupCall → Bool) → CleanupCall → List CleanupCall
suppress_if false raises c = []
suppress_if true raises c = suppress raises (c ∷ [])

abbrev release_engine : (CleanupCall → Bool) → Option Handle → List CleanupCall
release_engine raises none = []
release_engine raises (some engine) =
    suppress_if engine.has_engine_core raises shutdown ++ suppress_if engine.has_sleep raises sleep

abbrev torch_calls : Bool → List CleanupCall
torch_calls false = import_torch ∷ is_available ∷ []
torch_calls true = import_torch ∷ is_available ∷ synchronize ∷ empty_cache ∷ ipc_collect ∷ []

unfoldable release_vllm_engine : (CleanupCall → Bool) → Bool → Option Handle → List CleanupCall
release_vllm_engine raises cuda engine =
    release_engine raises engine
    ++ (suppress raises (import_parallel_state ∷ cleanup_dist_env_and_memory ∷ [])
        ++ (suppress raises (torch_calls cuda) ++ (gc_collect ∷ [])))

suppress_if_calls :
    (raises : CleanupCall → Bool) (c : CleanupCall) (b : Bool)
    → b ≡ true
    → In c (suppress_if b raises c)
suppress_if_calls raises c true h = inl refl
suppress_if_calls raises c false h = absurd (cc h)

torch_imported :
    (raises : CleanupCall → Bool) (cuda : Bool)
    → In import_torch (suppress raises (torch_calls cuda))
torch_imported raises false = inl refl
torch_imported raises true = inl refl

-- Whatever raises, an engine with a core is shut down, one that can sleep is put to sleep, the two
-- packages are imported for their cleanup, and the garbage collector runs.
release_survives :
    (raises : CleanupCall → Bool) (cuda : Bool) (engine : Handle)
    → engine.has_engine_core ≡ true
    → engine.has_sleep ≡ true
    → In shutdown (release_vllm_engine raises cuda (some engine))
      × In sleep (release_vllm_engine raises cuda (some engine))
      × In import_parallel_state (release_vllm_engine raises cuda (some engine))
      × In import_torch (release_vllm_engine raises cuda (some engine))
      × In gc_collect (release_vllm_engine raises cuda (some engine))
unfolding release_vllm_engine
release_survives raises cuda engine e f =
    let first = release_engine raises (some engine) in
    let second = suppress raises (import_parallel_state ∷ cleanup_dist_env_and_memory ∷ []) in
    let third = suppress raises (torch_calls cuda) in
    let last = gc_collect ∷ [] in
    let core = suppress_if engine.has_engine_core raises shutdown in
    let asleep = suppress_if engine.has_sleep raises sleep in
    (
      In-append_left shutdown first (second ++ (third ++ last)) (
          In-append_left shutdown core asleep
            (suppress_if_calls raises shutdown engine.has_engine_core e)),
      In-append_left sleep first (second ++ (third ++ last))
          (In-append_right sleep core asleep (suppress_if_calls raises sleep engine.has_sleep f)),
      In-append_right import_parallel_state first (second ++ (third ++ last)) (inl refl),
      In-append_right import_torch first (second ++ (third ++ last)) (
          In-append_right import_torch second (third ++ last)
            (In-append_left import_torch third last (torch_imported raises cuda))),
      In-append_right gc_collect first (second ++ (third ++ last)) (
          In-append_right gc_collect second (third ++ last)
            (In-append_right gc_collect third last (inl refl))),
    )
