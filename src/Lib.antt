-- ===== src/Lib.antt =====
-- The Python side of Infernix: the model cache, the artifact transfer, the seam that every adapter
-- shares, the vLLM engine, the job that fills the model bucket, the checks that keep fabricated
-- results out of the adapters, and the runner of the native engines.
--
-- How the parts interact. The coordinator runs `bootstrap-model-snapshot`
-- (python/adapters/model_bootstrap.py) to stage a model's files in MinIO under `<model id>/`, the
-- object `.ready` last. An adapter process (python/adapters/common.py) reads one WorkerRequest,
-- keeps its standard output for one WorkerResponse, configures the model cache from the request,
-- runs its engine, and uploads what an artifact engine makes. The engine asks
-- python/adapters/model_cache.py for the model's directory, which is filled from MinIO on a miss
-- and kept within a quota of bytes. On Apple hosts the daemon starts the runner
-- (python/native-runners/apple_native_runner.py) in place of an adapter; it reads a model's
-- directory that the cache has filled. The quality gate runs the realness and ownership checks on
-- the sources of the adapters and of the runner.
--
-- Files.
--   Prelude: texts (`str` and `bytes` as lists of numbers), dictionaries, `str.split`, lists measured
--     by native numbers, Boolean tests.
--   Cache (python/adapters/model_cache.py): Cache/Disk is the directory below the cache root, a
--     dictionary of entries with their access times; Cache/Config is `ModelCacheConfig` with the
--     module variable `_CONFIG`; Cache/Lru is `_enforce_lru_quota`; Cache/Populate is
--     `_populate_from_minio` with what it calls; Cache/Access is `get_model_path`.
--   Artifact (python/adapters/common.py): Artifact/Key checks prefixes and makes key segments;
--     Artifact/Upload is `_upload_demo_object` and `download_demo_object`.
--   Adapter (python/adapters/common.py): Adapter/Request holds the fields of the request that are
--     read; Adapter/Context is `load_adapter_context` and the methods of `AdapterContext`;
--     Adapter/Configure is `_configure_model_cache_from_request`; Adapter/Process is the process
--     with its descriptors, its log file and its data-segment limit; Adapter/Run is
--     `run_context_adapter` and `run_artifact_adapter`;
--     Adapter/Setup is `run_setup_bootstrap`, a step at a time.
--   Bootstrap (python/adapters/model_bootstrap.py): Bootstrap/Store is the S3 client, reads answered
--     as the bucket stood at the start and writes logged in order; Bootstrap/Delete is
--     `_delete_model_prefix`; Bootstrap/Payload is `_download_single_payload` and the tests on
--     addresses; Bootstrap/Validity is `_existing_model_cache_ready`; Bootstrap/Retry is the two
--     downloads that are tried again; Bootstrap/Staging is `_upload_directory`; Bootstrap/Main is
--     `run_model_bootstrap_from_argv` behind its argument parser.
--   Engine: Engine/Vllm (python/adapters/vllm_python.py) is `transform` with the arena fraction, the
--     options and the prompt; the quotient of the fraction is kept exact, not in floating point;
--     Engine/Vllm/Cleanup is `_release_vllm_engine`.
--     Engine/Local is what the other engines share: devices, the weights and the imports around them;
--     Engine/Transformers (python/adapters/transformers_python.py) and Engine/Diffusers
--     (python/adapters/diffusers_python.py) are their `transform`; Engine/Pytorch
--     (python/adapters/pytorch_python.py) is the dispatch of an artifact request, with what each
--     family of models makes in Engine/Pytorch/Work and what the MT3 compatibility patches make
--     of a call in Engine/Pytorch/Compat.
--   Publish is the bucket between the job and the cache: the objects that the job's commands leave,
--     and a client that serves them.
--   Realness (python/adapters/common.py): Realness/Syntax is Python's syntax tree and `ast.walk`;
--     Realness/Check is `_run_realness_ast_check` and `_run_native_runner_realness_check`, with the
--     patterns they reject in Realness/Check/Fabricates; Realness/Ownership is
--     `_apple_native_runner_ownership_violations`.
--   Runner (python/native-runners/apple_native_runner.py): Runner/Isolation is
--     `_verify_expected_source_isolation`; Runner/Smoke is `_run_smoke`; Runner/Output is
--     `_require_nonempty_output`; Runner/Engines is `_run_inference` with the runs of single engines;
--     Runner/Main is `main`; Runner/Notes and Runner/Midi are the note loops and the track of
--     `_run_basic_pitch_onnx`.
--   Each Tests file runs the definitions and applies the theorems to concrete data.
--
-- Bounds. The loops are structural recursion over what they read: pages, keys, directory entries,
-- chunks. The attempts of the two retried downloads are counted down from ten and from three, as
-- `range` does. `ast.walk` runs on the number of the tree's nodes, and yields every one of them. The
-- scans of the note loops run on the number of frames that are left, and the loop over the peaks on
-- the number of cells: each of its rounds lowers one that was above the threshold. Sizes and times
-- are natural numbers, as Python's integers here never are negative; access times are compared only.
--
-- Outside the repository, and so arguments: boto3, urllib, huggingface_hub, SHA-256, the JSON and
-- zip readers, `str.isalnum` and `str.lower`, UTF-8 decoding, protobuf serialization, the clock,
-- and which removals the file system refuses, the vLLM package with the device it sees, and the
-- packages that the other engines run their models with.
--
-- Not modelled: the flags that keep the MT3 patches from being installed twice; the rest of the
-- quality gate, which starts commands and loads the runner as a module; the argument parsers;
-- `materialize_temp_input`; in basic-pitch, what numpy, scipy and onnxruntime compute before the
-- note loops, and the floating-point times and amplitudes, which are arguments (activations are
-- numbers that are compared and set to zero); the Haskell daemon and the web client. A model id is
-- one directory name, so ids that walk the file system are not seen; an object key names a file, so
-- a key that ends in a slash, or lies below another, is not either. Keys that S3 reports as not
-- deleted, which the code does not look at, are not seen, nor is an engine that leaves by `SystemExit`
-- or `KeyboardInterrupt`. The model of the cache sees one process at a time.
pub mod Prelude
pub mod Cache
pub mod Artifact
pub mod Adapter
pub mod Bootstrap
pub mod Publish
pub mod Engine
pub mod Realness
pub mod Runner
