-- ===== src/Tools/Tests.antt =====
-- Witnesses of the theorems on output limits, captures, transcripts and the reporter.
use apprentice_harness.Common.{
  ℕ, ◌+◌, ◌-◌, ◌≤◌, ◌<◌, ◌≡◌, Bool, true, false, none, some, List, codes, [], ◌∷◌, ◌++◌, Bytes,
  length, take, drop, split_whitespace, join,
}
use apprentice_harness.Tools.Capture.{new_capture}
use apprentice_harness.Tools.Capture.Rendering.{push_chunks}
use apprentice_harness.Tools.Transcript.{
  ProgressStream, stdout, stderr, new_transcript, run_transcript, chunks_of,
}
use apprentice_harness.Tools.Transcript.Streams.{run_transcript_lem}
use apprentice_harness.Tools.Reporter.{sent, full, undelivered_lines}
use apprentice_harness.Tools.Reporter.Accounting.{
  Push, shown_lines, run_reporter, pushed_lines, new_reporter, run_reporter_lem,
}
use apprentice_harness.Tools.OneLine.{one_line, one_line_lem}
use apprentice_harness.Tools.Limits.{truncate_utf8, close_line, capture_bytes}
use apprentice_harness.Tools.Limits.Cuts.{IsBoundary, truncate_utf8_lem, capture_bytes_lem}

-- A letter of two bytes, cut in the middle: "aéaéaé".
abbrev letters : Bytes
letters = 0x61 ∷ 0xC3 ∷ 0xA9 ∷ 0x61 ∷ 0xC3 ∷ 0xA9 ∷ 0x61 ∷ 0xC3 ∷ 0xA9 ∷ []

abbrev marker : ℕ → Bytes
marker n = b'[' ∷ (b'0' + n) ∷ b']' ∷ []

truncate_utf8_lem_example :
    (length letters ≤ 4
      → truncate_utf8 letters 4 marker ≡ record { text = letters; truncated = false; omitted = 0 })
    × (4 < length letters
        → (h : ℕ) × (t : ℕ) × IsBoundary letters h
          × IsBoundary letters t
          × (h ≤ t)
          × (t ≤ length letters)
          × (h + (length letters - t) ≤ 4)
          × (truncate_utf8 letters 4 marker ≡ record {
            text = close_line (take h letters) ++ (marker (t - h) ++ (b'\n' ∷ drop t letters));
            truncated = true;
            omitted = t - h;
          }))
truncate_utf8_lem_example = truncate_utf8_lem letters 4 marker

-- Enough of a UTF-8 test for the example.
abbrev any_bytes : Bytes → Bool
any_bytes bs = true

capture_bytes_lem_example :
    (length letters ≤ 4 → capture_bytes any_bytes letters 4 ≡ none)
    × (4 < length letters
        → (h : ℕ) × (t : ℕ) × (h ≤ t)
          × (h + (length letters - t) ≤ 4)
          × (any_bytes letters ≡ true → IsBoundary letters h × IsBoundary letters t)
          × (any_bytes letters ≡ false → h + (length letters - t) ≡ 4)
          × (capture_bytes any_bytes letters 4 ≡ some (take h letters ++ drop t letters)))
capture_bytes_lem_example = capture_bytes_lem any_bytes letters 4

-- More than the sixteen bytes of the least budget.
abbrev output : List Bytes
output = codes "first line" ∷ (b'\n' ∷ codes "second line") ∷ (b'\n' ∷ codes "and a third") ∷ []

abbrev both : List (ProgressStream × Bytes)
both = (stdout, codes "a") ∷ (stderr, codes "b") ∷ (stdout, []) ∷ (stdout, codes "c") ∷ []

run_transcript_lem_example :
    ((run_transcript both (new_transcript 0)).out
      ≡ push_chunks (chunks_of stdout both) (new_capture 0))
    × ((run_transcript both (new_transcript 0)).error
        ≡ push_chunks (chunks_of stderr both) (new_capture 0))
    × (chunks_of stderr both ≡ []
        → (run_transcript both (new_transcript 0)).combined
          ≡ (run_transcript both (new_transcript 0)).out)
run_transcript_lem_example = run_transcript_lem 0 both

-- A consumer that lags behind the first chunk.
abbrev pushes : List Push
pushes = ((stdout, codes "a"), full ∷ []) ∷ ((stderr, codes "b"), sent ∷ sent ∷ full ∷ []) ∷ []

run_reporter_lem_example :
    ((run_reporter pushes (new_reporter false)).is_closed ≡ false
      → shown_lines (run_reporter pushes (new_reporter false)).delivered
          + undelivered_lines (run_reporter pushes (new_reporter false))
        ≡ pushed_lines pushes)
    × (length (run_reporter pushes (new_reporter false)).pending ≤ 8)
run_reporter_lem_example = run_reporter_lem false pushes

abbrev blanks : Bytes
blanks = codes "  a  b c  "

one_line_lem_example :
    (length (join (b' ' ∷ []) (split_whitespace blanks)) ≤ 4
      → one_line blanks 4 ≡ join (b' ' ∷ []) (split_whitespace blanks))
    × (5 ≤ length (join (b' ' ∷ []) (split_whitespace blanks))
        → one_line blanks 4
          ≡ take (4 - 1) (join (b' ' ∷ []) (split_whitespace blanks)) ++ 0x2026 ∷ [])
    × (1 ≤ 4 → length (one_line blanks 4) ≤ 4)
one_line_lem_example = one_line_lem blanks 4
