-- ===== src/Adapter/Process.antt =====
-- The adapter process of python/adapters/common.py: its two output descriptors, the private copy of
-- standard output, the backend log file, and the data-segment limit.
pub mod Log
use infernix.Prelude.{
  ℕ, ◌-◌, Bool, true, false, Option, none, some, [], ◌++◌, drop, length, ltb, if◌then◌else◌,
}
use infernix.Prelude.Text.{Text, codes, is_set, lstrip, rstrip}
use infernix.Prelude.Words.{is_space}

-- Where a descriptor leads.
pub data Channel : Type 0 where
  stdout_pipe stderr_pipe log_file : Channel

-- `fd1` and `fd2` with Python's buffers in front of them, `_PROTOBUF_STDOUT_FD` as what the saved
-- descriptor leads to, whether `_ADAPTER_LOG_PATH` is set, the bytes that the worker reads from the
-- two pipes, the log file while it exists, and whether the system refuses to remove it.
pub record Process : Type 0 where
  pub fd1 : Channel
  pub fd2 : Channel
  pub out_buffer : Text
  pub err_buffer : Text
  pub saved : Option Channel
  pub log_path : Bool
  pub stdout_bytes : Text
  pub stderr_bytes : Text
  pub log : Option Text
  pub log_stuck : Bool

abbrev append_log : Text → Option Text → Option Text
append_log bytes none = none
append_log bytes (some old) = some (old ++ bytes)

-- `os.write` to what the channel is.
unfoldable pub emit : Channel → Text → Process → Process
emit stdout_pipe bytes p = record p { stdout_bytes = p.stdout_bytes ++ bytes }
emit stderr_pipe bytes p = record p { stderr_bytes = p.stderr_bytes ++ bytes }
emit log_file bytes p = record p { log = append_log bytes p.log }

unfoldable pub flush_stdout : Process → Process
unfolding emit
flush_stdout p = let q = emit p.fd1 p.out_buffer p in record q { out_buffer = [] }

unfoldable pub flush_stderr : Process → Process
unfolding emit
flush_stderr p = let q = emit p.fd2 p.err_buffer p in record q { err_buffer = [] }

-- `_isolate_protobuf_stdout`: the second call does nothing.
unfoldable pub isolate_protobuf_stdout : Process → Process
unfolding flush_stdout flush_stderr
isolate_protobuf_stdout p = elim (p.saved) [
  | some _ ↦ p
  | none ↦
      let q = flush_stderr (flush_stdout p) in
      record q {
        saved = some q.fd1;
        log_path = true;
        log = some [];
        fd1 = log_file;
        fd2 = log_file;
      }
]

-- `_write_response`, of a serialized response.
unfoldable pub write_response : Text → Process → Process
unfolding emit flush_stdout
write_response payload p = elim (p.saved) [
  | some channel ↦ emit channel payload p
  | none ↦ flush_stdout (record p { out_buffer = p.out_buffer ++ payload })
]

-- `_cleanup_adapter_log`: a refused `unlink` is passed over.
unfoldable pub cleanup_adapter_log : Process → Process
cleanup_adapter_log p =
    if p.log_path
    then record p { log = if p.log_stuck then p.log else none; log_path = false }
    else p

-- The bytes from the position that `_adapter_backend_log_tail` seeks to.
unfoldable pub tail_payload : ℕ → Text → Text
tail_payload max_bytes log = drop (length log - max_bytes) log

unfoldable pub strip : Text → Text
strip text = rstrip is_space (lstrip is_space text)

abbrev pub log_limit : ℕ
log_limit = 12000

-- `_adapter_backend_log_tail`. `decode` is `bytes.decode("utf-8", errors="replace")`.
unfoldable pub adapter_backend_log_tail : (Text → Text) → ℕ → Process → Text
unfolding tail_payload strip
adapter_backend_log_tail decode max_bytes p =
    if p.log_path
    then elim (p.log) [
      | none ↦ []
      | some bytes ↦
          let text = strip (decode (tail_payload max_bytes bytes)) in
          if is_set text
          then if ltb max_bytes (length bytes)
            then codes "[backend log truncated]\n" ++ text
            else text
          else []
    ]
    else []

-- `getrlimit(RLIMIT_DATA)`
pub data Limit : Type 0 where
  infinity : Limit
  at_bytes : ℕ → Limit

unfoldable pub limit_bytes : Limit → ℕ
limit_bytes infinity = 0
limit_bytes (at_bytes n) = n

pub record CeilingAcknowledgement : Type 0 where
  pub soft_bytes : ℕ
  pub hard_bytes : ℕ

-- `_read_data_segment_limit` and `_ceiling_acknowledgement`
unfoldable pub ceiling_acknowledgement : Limit → Limit → CeilingAcknowledgement
ceiling_acknowledgement soft hard = record {
  soft_bytes = limit_bytes soft;
  hard_bytes = limit_bytes hard;
}
