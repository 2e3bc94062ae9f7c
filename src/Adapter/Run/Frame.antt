-- ===== src/Adapter/Run/Frame.antt =====
-- What the worker reads from an adapter: one response on standard output, whatever the engine writes.
use infernix.Prelude.{
  ◌≡◌, ◌⊎◌, refl, Bool, true, none, some, List, [], ◌∷◌, ◌++◌, arith, if◌then◌else◌,
}
use infernix.Prelude.Text.{Text}
use infernix.Cache.Config.{Configured}
use infernix.Adapter.Request.{WorkerRequest}
use infernix.Adapter.Context.{AdapterContext, load_adapter_context}
use infernix.Adapter.Configure.{configure_model_cache_from_request}
use infernix.Adapter.Process.{
  stdout_pipe, stderr_pipe, log_file, Process, emit, isolate_protobuf_stdout, write_response,
  cleanup_adapter_log,
}
use infernix.Adapter.Run.{
  WorkerResponse, Outcome, returned, raised, Behaviour, perform_writes, adapter_error_code, Runtime,
  acknowledgement, error_response, respond, context_response, run_context_adapter,
}

-- A process that has not been isolated, its descriptors on the worker's pipes.
pub record IsFresh (p : Process) : Type 0 where
  pub fd1 : p.fd1 ≡ stdout_pipe
  pub fd2 : p.fd2 ≡ stderr_pipe
  pub saved : p.saved ≡ none

-- Both descriptors lead to the log, and the pipes have received `out` and `err`.
pub record Shielded (out err : Text) (p : Process) : Type 0 where
  pub fd1 : p.fd1 ≡ log_file
  pub fd2 : p.fd2 ≡ log_file
  pub saved : p.saved ≡ some stdout_pipe
  pub log_path : p.log_path ≡ true
  pub stdout_bytes : p.stdout_bytes ≡ out
  pub stderr_bytes : p.stderr_bytes ≡ err

isolate-Shielded :
    (p : Process)
    → IsFresh p
    → Shielded
        (p.stdout_bytes ++ p.out_buffer)
        (p.stderr_bytes ++ p.err_buffer)
        (isolate_protobuf_stdout p)
unfolding isolate_protobuf_stdout
isolate-Shielded p h = ground arith

module _ (out err : Text) where
  emit-Shielded :
      (to_stdout : Bool) (bytes : Text) (p : Process)
      → Shielded out err p
      → Shielded out err (emit (if to_stdout then p.fd1 else p.fd2) bytes p)
  unfolding emit
  emit-Shielded to_stdout bytes p h = ground arith

  perform_writes-Shielded :
      (writes : List (Bool × Text)) (p : Process)
      → Shielded out err p
      → Shielded out err (perform_writes writes p)
  unfolding perform_writes
  perform_writes-Shielded [] p h = h
  perform_writes-Shielded ((to_stdout, bytes) ∷ rest) p h =
      perform_writes-Shielded rest _ (emit-Shielded to_stdout bytes p h)

-- The worker has received `before` and one serialized response on standard output and `err` on
-- standard error, and the log file is gone unless the system refuses to remove it.
pub record Answered (r : Runtime) (before err : Text) (w : WorkerResponse) (p : Process)
    : Type 0 where
  pub stdout_bytes : p.stdout_bytes ≡ before ++ r.serialize w
  pub stderr_bytes : p.stderr_bytes ≡ err
  pub log : (p.log_stuck ≡ true) ⊎ (p.log ≡ none)

pub respond-Answered :
    (r : Runtime) (out err : Text) (w : WorkerResponse) (p : Process)
    → Shielded out err p
    → Answered r out err w (respond r w p)
unfolding respond write_response cleanup_adapter_log
respond-Answered r out err w p h = ground arith

-- The response of a text adapter carries the text, or the code of the failure and no text; and in
-- both cases the limit that this process runs under.
abbrev pub AnswersText : Runtime → Outcome Text → WorkerResponse → Type 0
AnswersText r (returned text) w =
    (w.error_code ≡ []) × (w.output_text ≡ text) × (w.ceiling_acknowledgement ≡ acknowledgement r)
AnswersText r (raised f) w =
    (w.error_code ≡ adapter_error_code f)
    × (w.output_text ≡ [])
    × (w.ceiling_acknowledgement ≡ acknowledgement r)

context_response-AnswersText :
    (r : Runtime) (o : Outcome Text) (p : Process) → AnswersText r o (context_response r o p)
unfolding context_response error_response
context_response-AnswersText r (returned text) p = (refl, refl, refl)
context_response-AnswersText r (raised f) p = (refl, refl, refl)

module _ (r : Runtime) (p : Process) (fresh : IsFresh p) where
  abbrev sent_before : Text
  sent_before = p.stdout_bytes ++ p.out_buffer

  abbrev sent_aside : Text
  sent_aside = p.stderr_bytes ++ p.err_buffer

  pub shielded :
      (writes : List (Bool × Text))
      → Shielded sent_before sent_aside (perform_writes writes (isolate_protobuf_stdout p))
  shielded writes =
      perform_writes-Shielded sent_before sent_aside writes (isolate_protobuf_stdout p)
        (isolate-Shielded p fresh)

  -- Started with its descriptors on the worker's pipes and nothing isolated yet, a text adapter
  -- exits with 0 after exactly one response, on every outcome of its engine and
  -- whatever that wrote to descriptors 1 and 2; the response answers the engine's outcome.
  pub run_context_adapter-Answered :
      (transform : AdapterContext → Configured → Behaviour Text) (request : WorkerRequest)
      (config : Configured)
      → (w : WorkerResponse) × Answered r sent_before sent_aside w
          (run_context_adapter r transform request config p).0
        × AnswersText r
            (transform
              (load_adapter_context r.exists request)
              (configure_model_cache_from_request request config)).outcome
            w
        × ((run_context_adapter r transform request config p).1 ≡ 0)
  unfolding run_context_adapter
  run_context_adapter-Answered transform request config =
      let b =
        transform (load_adapter_context r.exists request)
          (configure_model_cache_from_request request config) in
      let q = perform_writes b.writes (isolate_protobuf_stdout p) in
      let w = context_response r b.outcome q in
      (
        w,
        respond-Answered r sent_before sent_aside w q (shielded b.writes),
        context_response-AnswersText r b.outcome q,
        refl,
      )
