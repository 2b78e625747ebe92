-- ===== src/Tools/Transcript/Streams.antt =====
-- About the captures of `Transcript` in crates/core/src/tools/shell/capture.rs.
use apprentice_harness.Common.{
  ℕ, ◌≡◌, refl, ◌∙◌, ap, ◌⊎◌, inl, inr, Option, none, some, List, [], ◌∷◌, Bytes,
}
use apprentice_harness.Tools.Capture.{Capture, new_capture, push_capture}
use apprentice_harness.Tools.Capture.Rendering.{push_chunks}
use apprentice_harness.Tools.Transcript.{
  ProgressStream, stdout, stderr, Transcript, new_transcript, switch_to, push_transcript,
  run_transcript, chunks_of,
}

run_transcript-streams :
    (chunks : List (ProgressStream × Bytes)) (t : Transcript)
    → ((run_transcript chunks t).out ≡ push_chunks (chunks_of stdout chunks) t.out)
      × ((run_transcript chunks t).error ≡ push_chunks (chunks_of stderr chunks) t.error)
unfolding run_transcript push_chunks push_transcript
run_transcript-streams [] t = (refl, refl)
run_transcript-streams ((stdout, []) ∷ chunks) t = run_transcript-streams chunks t
run_transcript-streams ((stderr, []) ∷ chunks) t = run_transcript-streams chunks t
run_transcript-streams ((stdout, b ∷ bs) ∷ chunks) t =
    run_transcript-streams chunks (push_transcript stdout (b ∷ bs) t)
run_transcript-streams ((stderr, b ∷ bs) ∷ chunks) t =
    run_transcript-streams chunks (push_transcript stderr (b ∷ bs) t)

-- The combined capture reads as the one of stdout does.
AsStdout : Transcript → Type 0
AsStdout t = (t.combined ≡ t.out) × ((t.current ≡ none) ⊎ (t.current ≡ some stdout))

switch_to-stdout :
    (o : Option ProgressStream) (c : Capture)
    → (o ≡ none) ⊎ (o ≡ some stdout)
    → switch_to stdout o c ≡ c
unfolding switch_to
switch_to-stdout none c h = refl
switch_to-stdout (some stdout) c h = refl
switch_to-stdout (some stderr) c (inl h) = cc
switch_to-stdout (some stderr) c (inr h) = cc

push-AsStdout :
    (bytes : Bytes) (t : Transcript) → AsStdout t → AsStdout (push_transcript stdout bytes t)
unfolding push_transcript AsStdout
push-AsStdout [] t h = h
push-AsStdout (b ∷ bs) t (same, current) =
    (ap (push_capture (b ∷ bs)) (switch_to-stdout t.current t.combined current ∙ same), inr refl)

run-AsStdout :
    (chunks : List (ProgressStream × Bytes)) (t : Transcript)
    → AsStdout t
    → chunks_of stderr chunks ≡ []
    → (run_transcript chunks t).combined ≡ (run_transcript chunks t).out
unfolding run_transcript push_transcript AsStdout
run-AsStdout [] t h e = h.0
run-AsStdout ((stdout, bytes) ∷ chunks) t h e =
    run-AsStdout chunks (push_transcript stdout bytes t) (push-AsStdout bytes t h) e
run-AsStdout ((stderr, []) ∷ chunks) t h e = run-AsStdout chunks t h e
run-AsStdout ((stderr, b ∷ bs) ∷ chunks) t h e = cc

-- However the chunks of the two streams are interleaved: the captures of stdout and of stderr are those
-- of their own chunks in their order, and when nothing came on stderr the combined capture is that of
-- stdout.
pub run_transcript_lem :
    (max_bytes : ℕ) (chunks : List (ProgressStream × Bytes))
    → let t = run_transcript chunks (new_transcript max_bytes) in
      (t.out ≡ push_chunks (chunks_of stdout chunks) (new_capture max_bytes))
      × (t.error ≡ push_chunks (chunks_of stderr chunks) (new_capture max_bytes))
      × (chunks_of stderr chunks ≡ [] → t.combined ≡ t.out)
unfolding new_transcript AsStdout
run_transcript_lem max_bytes chunks =
    let (out, error) = run_transcript-streams chunks (new_transcript max_bytes) in
    (out, error, λ silent. run-AsStdout chunks (new_transcript max_bytes) (refl, inl refl) silent)
