-- ===== src/Adapter/Run/Artifact.antt =====
-- What an artifact adapter answers and sends, by what its engine made.
use infernix.Prelude.{
  ℕ, ◌≡◌, ◌≢◌, ◌⊎◌, inl, inr, refl, Bool, true, false, Option, none, some, [], ◌∷◌, ◌++◌,
}
use infernix.Prelude.Text.{Text, codes}
use infernix.Cache.Config.{Configured}
use infernix.Adapter.Request.{WorkerRequest}
use infernix.Adapter.Context.{AdapterContext, load_adapter_context}
use infernix.Adapter.Configure.{configure_model_cache_from_request}
use infernix.Adapter.Process.{Process, isolate_protobuf_stdout}
use infernix.Artifact.Upload.{ArtifactResult, PutObject, TransferError, client_raised, Upload}
use infernix.Artifact.Upload.Ends.{IsFor, IsHindered, Ends, stored, unsent, untaken, upload_cases}
use infernix.Adapter.Run.{
  WorkerResponse, empty_artifact, transfer_failed, upload_outcome, Outcome, returned, raised,
  Behaviour, perform_writes, adapter_error_code, Runtime, acknowledgement, error_response, publish,
  artifact_response, run_artifact_adapter,
}
use infernix.Adapter.Run.Frame.{IsFresh, Answered, respond-Answered, shielded}

-- The artifact is in the store: what was sent is the artifact's bytes, with its type, under a key
-- that begins with the request's prefix; the store took it; and the response has no error and refers
-- to it.
pub record Delivered (takes : PutObject → Bool) (context : AdapterContext)
    (artifact : ArtifactResult) (w : WorkerResponse) (sent : Option PutObject) : Type 0 where
  pub put : PutObject
  pub was_sent : sent ≡ some put
  pub is_artifact : IsFor context artifact put
  pub taken : takes put ≡ true
  pub no_error : w.error_code ≡ []
  pub refers : w.object_ref ≡ put.bucket ++ (codes "/" ++ put.key)

-- The artifact is not in the store: the response has the failure's code and no reference, and
-- nothing was sent, for want of a configuration, boto3 or a good prefix, or the store refused it.
pub record Undelivered (config : Configured) (boto3 : Bool) (takes : PutObject → Bool)
    (context : AdapterContext) (artifact : ArtifactResult) (w : WorkerResponse)
    (sent : Option PutObject) : Type 0 where
  pub reason : TransferError
  pub code : w.error_code ≡ adapter_error_code (transfer_failed reason)
  pub no_reference : w.object_ref ≡ []
  pub hindered :
      ((sent ≡ none) × IsHindered config boto3 context reason)
      ⊎ ((reason ≡ client_raised)
          × (put : PutObject) × (sent ≡ some put)
          × IsFor context artifact put
          × (takes put ≡ false))

-- The same, for an engine that failed or made an empty artifact too: it sends nothing and answers
-- the failure's code.
abbrev pub AnswersArtifact :
    Configured
    → Bool
    → (PutObject → Bool)
    → AdapterContext
    → Outcome ArtifactResult
    → WorkerResponse
    → Option PutObject
    → Type 0
AnswersArtifact config boto3 takes context (raised f) w sent =
    (w.error_code ≡ adapter_error_code f) × (w.object_ref ≡ []) × (sent ≡ none)
AnswersArtifact config boto3 takes context (returned artifact) w sent =
    ((artifact.body ≡ [])
      × (w.error_code ≡ adapter_error_code empty_artifact)
      × (w.object_ref ≡ [])
      × (sent ≡ none))
    ⊎ ((artifact.body ≢ [])
        × (Delivered takes context artifact w sent
            ⊎ Undelivered config boto3 takes context artifact w sent))

module _ (is_alnum : ℕ → Bool) (sha256_hex : Text → Text) (boto3 : Bool)
    (takes : PutObject → Bool) where
  abbrev published :
      Configured → AdapterContext → Outcome ArtifactResult → Outcome Text × Option PutObject
  published = publish is_alnum sha256_hex boto3 takes

  abbrev response : Runtime → Outcome Text → Process → WorkerResponse
  response = artifact_response is_alnum sha256_hex boto3 takes

  uploaded :
      (r : Runtime) (config : Configured) (context : AdapterContext) (artifact : ArtifactResult)
      (q : Process) (u : Upload)
      → Ends config boto3 takes context artifact u
      → let o : Outcome Text × Option PutObject =
          upload_outcome is_alnum sha256_hex boto3 takes u in
        Delivered takes context artifact (response r o.0 q) o.1
        ⊎ Undelivered config boto3 takes context artifact (response r o.0 q) o.1
  unfolding artifact_response error_response
  uploaded r config context artifact q _ (stored put made took) = inl (record {
    put = put;
    was_sent = refl;
    is_artifact = made;
    taken = took;
    no_error = refl;
    refers = refl;
  })
  uploaded r config context artifact q _ (unsent e why) =
      inr (record { reason = e; code = refl; no_reference = refl; hindered = inl (refl, why) })
  uploaded r config context artifact q _ (untaken put made left) = inr (record {
    reason = client_raised;
    code = refl;
    no_reference = refl;
    hindered = inr (refl, put, refl, made, left);
  })

  published_artifact :
      (r : Runtime) (config : Configured) (context : AdapterContext) (q : Process)
      (body kind suffix : Text)
      → let o : Outcome ArtifactResult =
          returned (record { body = body; content_type = kind; suffix = suffix }) in
        AnswersArtifact config boto3 takes context o
          (response r (published config context o).0 q)
          (published config context o).1
  published_artifact r config context q [] kind suffix =
      unfold publish artifact_response error_response in inl (refl, refl, refl, refl)
  published_artifact r config context q (c ∷ body) kind suffix =
      let artifact : ArtifactResult = record {
        body = c ∷ body;
        content_type = kind;
        suffix = suffix;
      } in
      unfold publish in
      inr (
        (λ e. cc e),
        uploaded r config context artifact q _
            (upload_cases is_alnum sha256_hex boto3 takes context artifact config),
      )

  published-AnswersArtifact :
      (r : Runtime) (config : Configured) (context : AdapterContext) (q : Process)
      (o : Outcome ArtifactResult)
      → AnswersArtifact config boto3 takes context o
          (response r (published config context o).0 q)
          (published config context o).1
  published-AnswersArtifact r config context q (raised f) =
      unfold publish artifact_response error_response in (refl, refl, refl)
  published-AnswersArtifact r config context q (returned artifact) =
      published_artifact r config context q artifact.body artifact.content_type artifact.suffix

  response_acknowledges :
      (r : Runtime) (o : Outcome Text) (q : Process)
      → (response r o q).ceiling_acknowledgement ≡ acknowledgement r
  unfolding artifact_response error_response
  response_acknowledges r (raised f) q = refl
  response_acknowledges r (returned t) q = refl

  module _ (r : Runtime) (p : Process) (fresh : IsFresh p) where
    -- Started with its descriptors on the worker's pipes and nothing isolated yet, an artifact
    -- adapter exits with 0 after exactly one response, with the limit of its process in it, whatever
    -- its engine wrote. A failed engine or an empty artifact sends nothing and is answered with its
    -- code. Any other artifact is sent with its own bytes and type under the request's prefix, and the
    -- response refers to it once the store took it. Otherwise the response has the failure's code and
    -- no reference: nothing was sent, for want of a configuration, boto3 or a prefix that passes the
    -- check, or the store refused what was sent.
    pub run_artifact_adapter-Answered :
        (transform : AdapterContext → Configured → Behaviour ArtifactResult)
        (request : WorkerRequest) (config : Configured)
        → let run =
            run_artifact_adapter is_alnum sha256_hex boto3 takes r transform request config p in
          (w : WorkerResponse) × Answered r
            (p.stdout_bytes ++ p.out_buffer)
            (p.stderr_bytes ++ p.err_buffer)
            w
            run.0
          × AnswersArtifact
              (configure_model_cache_from_request request config)
              boto3
              takes
              (load_adapter_context r.exists request)
              (transform
                (load_adapter_context r.exists request)
                (configure_model_cache_from_request request config)).outcome
              w
              run.1
          × (w.ceiling_acknowledgement ≡ acknowledgement r)
          × (run.2 ≡ 0)
    unfolding run_artifact_adapter
    run_artifact_adapter-Answered transform request config =
        let configured = configure_model_cache_from_request request config in
        let context = load_adapter_context r.exists request in
        let b = transform context configured in
        let q = perform_writes b.writes (isolate_protobuf_stdout p) in
        let o = (published configured context b.outcome).0 in
        (
          response r o q,
          respond-Answered r (p.stdout_bytes ++ p.out_buffer) (p.stderr_bytes ++ p.err_buffer)
              (response r o q) q (shielded r p fresh b.writes),
          published-AnswersArtifact r configured context q b.outcome,
          response_acknowledges r o q,
          refl,
        )
