-- ===== src/Adapter/Run.antt =====
-- `run_context_adapter` and `run_artifact_adapter` of python/adapters/common.py.
pub mod Frame
pub mod Artifact
use infernix.Prelude.{
  ℕ, Bool, true, false, Option, none, some, List, [], ◌∷◌, ◌++◌, if◌then◌else◌, keep_if,
}
use infernix.Prelude.Text.{Text, codes, is_set, join}
use infernix.Cache.Config.{CacheError, is_not_populated, Configured}
use infernix.Adapter.Request.{WorkerRequest}
use infernix.Adapter.Context.{AdapterContext, load_adapter_context}
use infernix.Adapter.Configure.{configure_model_cache_from_request}
use infernix.Adapter.Process.{
  Process, emit, isolate_protobuf_stdout, write_response, cleanup_adapter_log, log_limit,
  adapter_backend_log_tail, Limit, CeilingAcknowledgement, ceiling_acknowledgement,
}
use infernix.Artifact.Upload.{
  ArtifactResult, PutObject, TransferError, unconfigured, Uploaded, object_ref, upload_failed,
  Upload, upload_demo_object,
}

pub record WorkerResponse : Type 0 where
  pub error_code : Text
  pub error_message : Text
  pub output_text : Text
  pub object_ref : Text
  pub ceiling_acknowledgement : CeilingAcknowledgement

-- What reaches the `except` clause: an engine's exception, with whether it is a
-- `ModelCacheNotPopulated`, and those that the seam raises itself.
pub data Failure : Type 0 where
  engine_raised : Bool → Text → Failure
  empty_artifact : Failure
  transfer_failed : TransferError → Failure

-- What leaves the engine without being an `Exception`, `SystemExit` or `KeyboardInterrupt`, passes the
-- `except` clauses by and ends the process; it is no outcome here.
pub data Outcome {ℓ} (A : Type ℓ) : Type ℓ where
  returned : A → Outcome A
  raised : Failure → Outcome A

-- What an engine does: writes to descriptors 1 (`true`) and 2, then a result or an exception.
pub record Behaviour {ℓ} (A : Type ℓ) : Type ℓ where
  pub writes : List (Bool × Text)
  pub outcome : Outcome A

unfoldable pub perform_writes : List (Bool × Text) → Process → Process
perform_writes [] p = p
perform_writes ((to_stdout, bytes) ∷ rest) p =
    perform_writes rest (emit (if to_stdout then p.fd1 else p.fd2) bytes p)

abbrev pub failure_not_populated : Failure → Bool
failure_not_populated (engine_raised cold _) = cold
failure_not_populated empty_artifact = false
failure_not_populated (transfer_failed (unconfigured e)) = is_not_populated e
failure_not_populated (transfer_failed _) = false

unfoldable pub adapter_error_code : Failure → Text
adapter_error_code f =
    if failure_not_populated f then codes "model_cache_not_populated" else codes "adapter_failed"

-- What the runtime and generated code give: the texts of an exception, UTF-8 decoding, protobuf
-- serialization, which paths exist, and the limit of this process.
pub record Runtime : Type 0 where
  pub summary : Failure → Text
  pub traceback : Failure → Text
  pub decode : Text → Text
  pub serialize : WorkerResponse → Text
  pub exists : Text → Bool
  pub soft_limit : Limit
  pub hard_limit : Limit

module _ (r : Runtime) where
  abbrev pub acknowledgement : CeilingAcknowledgement
  acknowledgement = ceiling_acknowledgement r.soft_limit r.hard_limit

  -- `_adapter_error_message`
  unfoldable pub adapter_error_message : Failure → Process → Text
  adapter_error_message f p =
      let tail = adapter_backend_log_tail r.decode log_limit p in
      let parts = r.summary f ∷ codes "Python traceback:" ∷ r.traceback f ∷ [] in
      let extended =
        if is_set tail then parts ++ (codes "Backend log tail:" ∷ tail ∷ []) else parts in
      join (codes "\n") (keep_if is_set extended)

  abbrev pub blank : WorkerResponse
  blank = record {
    error_code = [];
    error_message = [];
    output_text = [];
    object_ref = [];
    ceiling_acknowledgement = acknowledgement;
  }

  -- The response of each `except` clause, from the process as the failure left it.
  unfoldable pub error_response : Failure → Process → WorkerResponse
  error_response f p = record blank {
    error_code = adapter_error_code f;
    error_message = adapter_error_message f p;
  }

  unfoldable pub respond : WorkerResponse → Process → Process
  respond response p = cleanup_adapter_log (write_response (r.serialize response) p)

  unfoldable pub context_response : Outcome Text → Process → WorkerResponse
  context_response (raised f) p = error_response f p
  context_response (returned text) p = record blank { output_text = text }

  -- The process after the call, and its exit status.
  unfoldable pub run_context_adapter :
      (AdapterContext → Configured → Behaviour Text)
      → WorkerRequest
      → Configured
      → Process
      → Process × ℕ
  run_context_adapter transform request config p =
      let b =
        transform (load_adapter_context r.exists request)
          (configure_model_cache_from_request request config) in
      let q = perform_writes b.writes (isolate_protobuf_stdout p) in
      (respond (context_response b.outcome q) q, 0)

-- The steps of `run_artifact_adapter` after the transform: the empty check and the upload.
module _ (is_alnum : ℕ → Bool) (sha256_hex : Text → Text) (boto3 : Bool)
    (takes : PutObject → Bool) where
  abbrev pub upload_outcome : Upload → Outcome Text × Option PutObject
  upload_outcome u = elim (u.result) [
    | object_ref reference ↦ (returned reference, u.sent)
    | upload_failed e ↦ (raised (transfer_failed e), u.sent)
  ]

  unfoldable pub publish :
      Configured → AdapterContext → Outcome ArtifactResult → Outcome Text × Option PutObject
  publish config context (raised f) = (raised f, none)
  publish config context (returned artifact) =
      if is_set artifact.body
      then upload_outcome
          (upload_demo_object is_alnum sha256_hex config boto3 takes context artifact)
      else (raised empty_artifact, none)

  module _ (r : Runtime) where
    unfoldable pub artifact_response : Outcome Text → Process → WorkerResponse
    artifact_response (raised f) p = error_response r f p
    artifact_response (returned reference) p = record (blank r) { object_ref = reference }

    -- The process after the call, what was sent to the store, and the exit status.
    unfoldable pub run_artifact_adapter :
        (AdapterContext → Configured → Behaviour ArtifactResult)
        → WorkerRequest
        → Configured
        → Process
        → Process × Option PutObject × ℕ
    run_artifact_adapter transform request config p =
        let configured = configure_model_cache_from_request request config in
        let context = load_adapter_context r.exists request in
        let b = transform context configured in
        let q = perform_writes b.writes (isolate_protobuf_stdout p) in
        let (outcome, sent) = publish configured context b.outcome in
        (respond r (artifact_response outcome q) q, sent, 0)
