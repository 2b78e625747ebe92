-- ===== src/Tools/Transcript.antt =====
-- The captures of one run: `Transcript` of crates/core/src/tools/shell/capture.rs.
pub mod Streams
use apprentice_harness.Common.{
  ℕ, Bool, true, false, not, ◌&&◌, ◌||◌, Option, none, some, List, [], ◌∷◌, ◌++◌, Bytes, codes,
  is_empty, ltb, if◌then◌else◌,
}
use apprentice_harness.Tools.Capture.{
  Capture, new_capture, push_capture, ends_with_newline, is_truncated, render,
}
use apprentice_harness.Tools.Capture.Rendering.{push_chunks}

pub data ProgressStream : Type 0 where
  stdout stderr : ProgressStream

abbrev stream_eq : ProgressStream → ProgressStream → Bool
stream_eq stdout stdout = true
stream_eq stderr stderr = true
stream_eq _ _ = false

pub record Transcript : Type 0 where
  pub combined : Capture
  pub out : Capture
  pub error : Capture
  pub current : Option ProgressStream

unfoldable pub new_transcript : ℕ → Transcript
new_transcript max_bytes = record {
  combined = new_capture max_bytes;
  out = new_capture max_bytes;
  error = new_capture max_bytes;
  current = none;
}

abbrev stream_tag : ProgressStream → Bytes
stream_tag stdout = codes "[out]" ++ b'\n' ∷ []
stream_tag stderr = codes "[err]" ++ b'\n' ∷ []

-- The tag of a change of stream, on a line of its own.
unfoldable pub push_tag : ProgressStream → Capture → Capture
push_tag s c =
    let on_new_line =
      if ltb 0 c.total && not (ends_with_newline c) then push_capture (b'\n' ∷ []) c else c in
    push_capture (stream_tag s) on_new_line

unfoldable pub switch_to : ProgressStream → Option ProgressStream → Capture → Capture
unfolding push_tag
switch_to stdout none c = c
switch_to stderr none c = push_tag stderr c
switch_to s (some current) c = if stream_eq current s then c else push_tag s c

abbrev pub of_stream : ProgressStream → Bytes → Transcript → Transcript
of_stream stdout bytes t = record t { out = push_capture bytes t.out }
of_stream stderr bytes t = record t { error = push_capture bytes t.error }

-- `Transcript::push`
unfoldable pub push_transcript : ProgressStream → Bytes → Transcript → Transcript
unfolding switch_to
push_transcript s bytes t =
    let kept : Transcript = of_stream s bytes t in
    if is_empty bytes then t else record kept {
      combined = push_capture bytes (switch_to s t.current t.combined);
      current = some s;
    }

unfoldable pub transcript_truncated : Transcript → Bool
transcript_truncated t = is_truncated t.combined || (is_truncated t.out || is_truncated t.error)

-- `Transcript::stream_bytes`
unfoldable pub stream_bytes :
    (ProgressStream → ℕ → Bytes) → ProgressStream → Transcript → Option Bytes
stream_bytes marker stdout t =
    if ltb 0 t.out.total then some (render (marker stdout) t.out) else none
stream_bytes marker stderr t =
    if ltb 0 t.error.total then some (render (marker stderr) t.error) else none

unfoldable pub run_transcript : List (ProgressStream × Bytes) → Transcript → Transcript
run_transcript [] t = t
run_transcript ((s, bytes) ∷ chunks) t = run_transcript chunks (push_transcript s bytes t)

-- The chunks of one stream, without the empty ones.
abbrev pub chunks_of : ProgressStream → List (ProgressStream × Bytes) → List Bytes
chunks_of s [] = []
chunks_of s ((r, bytes) ∷ chunks) =
    let rest = chunks_of s chunks in
    if stream_eq r s && not (is_empty bytes) then bytes ∷ rest else rest
