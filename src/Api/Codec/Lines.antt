-- ===== src/Api/Codec/Lines.antt =====
-- About `read_frame` of crates/api/src/codec.rs on lines that come in pieces.
use apprentice_harness.Common.{
  ℕ, ◌+◌, ◌≡◌, refl, sym, ◌∙◌, ap, subst, inl, inr, true, false, none, some, [], ◌∷◌, ◌++◌,
  append_assoc, arith, Bytes, Text, length, length-append, ltb, ◌==◌, Bool-cases, if◌then◌else◌,
}
use apprentice_harness.Common.Result.{Result, ok}
use apprentice_harness.Mentor.Sse.Chunks.{NoNewline}
use apprentice_harness.Api.Codec.{
  Frame, line_frame, too_long, Reader, Reading, split_line, strip_cr, take_chunk, at_newline,
  unread, read_loop, read_frame,
}

-- How a piece ends a line: not yet, or at a newline in the piece.
pub data Cuts (piece line rest later : Bytes) : Type 0 where
  within :
      (line' : Bytes)
      → split_line piece ≡ none
      → line ≡ piece ++ line'
      → later ≡ line' ++ b'\n' ∷ rest
      → NoNewline line'
      → Cuts piece line rest later
  behind :
      (rest' : Bytes)
      → split_line piece ≡ some (line, rest')
      → rest' ++ later ≡ rest
      → Cuts piece line rest later

Cuts-cons :
    (b : ℕ) (piece line rest later : Bytes)
    → (b == b'\n') ≡ false
    → Cuts piece line rest later
    → Cuts (b ∷ piece) (b ∷ line) rest later
unfolding split_line
Cuts-cons b piece line rest later h (within line' e l k n) =
    within line' (rw (h, e) refl) (ap (λ s. b ∷ s) l) k n
Cuts-cons b piece line rest later h (behind rest' e k) = behind rest' (rw (h, e) refl) k

cuts :
    (piece line rest later : Bytes)
    → NoNewline line
    → piece ++ later ≡ line ++ b'\n' ∷ rest
    → Cuts piece line rest later
unfolding split_line
cuts [] line rest later n h = within line refl refl h n
cuts (b ∷ piece) [] rest later n h = let same : b ≡ b'\n' = cc in behind piece (rw same refl) cc
cuts (b ∷ piece) (x ∷ line) rest later n h =
    let same : x ≡ b = cc in
    let tails : piece ++ later ≡ line ++ b'\n' ∷ rest = cc in
    rw same
      (Cuts-cons b piece line rest later (rw same at n.0) (cuts piece line rest later n.1 tails))

-- The variables of the loop behind the bytes that were read.
abbrev pub after : ℕ → Bytes → Reading
after limit bs =
    if ltb limit (length bs)
    then record { buf = []; discarding = true; discarded = length bs }
    else record { buf = bs; discarding = false; discarded = 0 }

take_chunk-after :
    (limit : ℕ) (bs chunk : Bytes)
    → take_chunk limit chunk (after limit bs) ≡ after limit (bs ++ chunk)
unfolding take_chunk
take_chunk-after limit bs chunk = elim (Bool-cases (ltb limit (length bs))) [
  | inl long ↦
      let longer : ltb limit (length bs + length chunk) ≡ true = ground (arith, long) in
      rw (length-append bs chunk, long, longer) refl
  | inr short ↦ rw (length-append bs chunk, short) refl
]

-- The frame of a line.
abbrev pub frame_of : ℕ → Bytes → Frame
frame_of limit line =
    if ltb limit (length line) then too_long (length line) else line_frame (strip_cr line)

at_newline-after : (limit : ℕ) (line : Bytes) → at_newline (after limit line) ≡ frame_of limit line
at_newline-after limit line = elim (Bool-cases (ltb limit (length line))) [
  | inl long ↦ rw long refl
  | inr short ↦ rw short refl
]

-- A reader whose pieces have bytes, and all of them in order.
pub data Gives : Reader → Bytes → Type 0 where
  no_more : Gives [] []
  gives :
      (b : ℕ) (bs : Bytes) (fills : Reader) (later : Bytes)
      → Gives fills later
      → Gives (ok (b ∷ bs) ∷ fills) ((b ∷ bs) ++ later)

unread-Gives :
    (bs : Bytes) (fills : Reader) (later : Bytes)
    → Gives fills later
    → Gives (unread bs fills) (bs ++ later)
unread-Gives [] fills later g = g
unread-Gives (b ∷ bs) fills later g = gives b bs fills later g

-- A read that gives the frame and leaves the reader at the bytes.
pub data Reads (o : Result Text Frame × Reader) (frame : Frame) (rest : Bytes) : Type 0 where
  reads : (fills : Reader) → o ≡ (ok frame, fills) → Gives fills rest → Reads o frame rest

read_loop-Reads :
    (limit : ℕ) (fills : Reader) (given : Bytes)
    → Gives fills given
    → (before line rest : Bytes) → NoNewline line
    → given ≡ line ++ b'\n' ∷ rest
    → Reads (read_loop limit fills (after limit before)) (frame_of limit (before ++ line)) rest
unfolding read_loop
read_loop-Reads limit fills given no_more before [] rest n h = absurd cc
read_loop-Reads limit fills given no_more before (x ∷ line) rest n h = absurd cc
read_loop-Reads limit fills given (gives b bs fills' later g) before line rest n h =
    elim (cuts (b ∷ bs) line rest later n h) [
      | within line' e l k n' ↦
          rw
            (
              read_loop,
              e,
              take_chunk-after limit before (b ∷ bs),
              l,
              sym (append_assoc before (b ∷ bs) line'),
            )
            (read_loop-Reads limit fills' later g (before ++ b ∷ bs) line' rest n' k)
      | behind rest' e k ↦
          rw (read_loop, e)
            (reads _
              (ap (λ f. (ok f, unread rest' fills'))
                (ap at_newline (take_chunk-after limit before line)
                  ∙ at_newline-after limit (before ++ line)))
              (subst (Gives (unread rest' fills')) k (unread-Gives rest' fills' later g)))
    ]

-- However the bytes come in pieces: when a line, free of newlines, and a newline come first, one read gives
-- the line without a carriage return at its end, or, when the line is over the limit, its exact length; and
-- it leaves the reader at the bytes behind the newline.
pub read_frame_lem :
    (limit : ℕ) (fills : Reader) (line rest : Bytes)
    → NoNewline line
    → Gives fills (line ++ b'\n' ∷ rest)
    → Reads (read_frame limit fills) (frame_of limit line) rest
unfolding read_frame
read_frame_lem limit fills line rest n g =
    let fits : ltb limit 0 ≡ false = ground arith in
    rw fits at (read_loop-Reads limit fills _ g [] line rest n refl)
