-- ===== src/Api/Codec.antt =====
-- The framing of lines: `read_frame` of crates/api/src/codec.rs.
-- A reader is the list of what its `fill_buf` answers, one behind the other: the bytes that are available,
-- none at the end of the stream, or an error. What is available stays so until it is consumed.
pub mod Lines
pub mod RoundTrip
mod Tests
use apprentice_harness.Common.{
  ℕ, ◌+◌, ◌*◌, Bool, true, false, Option, none, some, List, [], ◌∷◌, ◌++◌, Bytes, Text, length,
  is_empty, cons_left, ltb, ◌==◌, ◌&&◌, if◌then◌else◌,
}
use apprentice_harness.Common.Result.{Result, ok, err, ◌>>=◌}

-- `MAX_LINE_BYTES`
abbrev pub max_line_bytes : ℕ
max_line_bytes = 64 * 1024 * 1024

pub data Frame : Type 0 where
  line_frame : Bytes → Frame
  too_long : ℕ → Frame
  eof : Frame

abbrev pub Reader : Type 0
Reader = List (Result Text Bytes)

-- The variables of the loop.
pub record Reading : Type 0 where
  pub buf : Bytes
  pub discarding : Bool
  pub discarded : ℕ

abbrev pub new_reading : Reading
new_reading = record { buf = []; discarding = false; discarded = 0 }

-- The bytes before the first newline, and those behind it.
unfoldable pub split_line : Bytes → Option (Bytes × Bytes)
split_line [] = none
split_line (b ∷ bs) =
    let later = cons_left b (split_line bs) in if b == b'\n' then some ([], bs) else later

unfoldable pub strip_cr : Bytes → Bytes
strip_cr [] = []
strip_cr (b ∷ bs) = let rest = strip_cr bs in if is_empty bs && b == b'\r' then [] else b ∷ rest

-- What the loop does with a chunk.
unfoldable pub take_chunk : ℕ → Bytes → Reading → Reading
take_chunk limit chunk r =
    if r.discarding
    then record r { discarded = r.discarded + length chunk }
    else if ltb limit (length r.buf + length chunk)
    then record { buf = []; discarding = true; discarded = length r.buf + length chunk }
    else record r { buf = r.buf ++ chunk }

abbrev pub at_newline : Reading → Frame
at_newline r = if r.discarding then too_long r.discarded else line_frame (strip_cr r.buf)

unfoldable pub at_eof : Reading → Frame
at_eof r =
    if r.discarding then too_long r.discarded else if is_empty r.buf then eof else line_frame r.buf

-- What is left of the available bytes is available next.
abbrev pub unread : Bytes → Reader → Reader
unread [] fills = fills
unread (b ∷ bs) fills = ok (b ∷ bs) ∷ fills

-- The loop; the answers of `fill_buf` end it.
unfoldable pub read_loop : ℕ → Reader → Reading → Result Text Frame × Reader
unfolding take_chunk at_eof split_line strip_cr
read_loop limit [] r = (ok (at_eof r), [])
read_loop limit (err e ∷ fills) r = (err e, fills)
read_loop limit (ok [] ∷ fills) r = (ok (at_eof r), fills)
read_loop limit (ok (b ∷ bs) ∷ fills) r = elim (split_line (b ∷ bs)) [
  | some (chunk, rest) ↦ (ok (at_newline (take_chunk limit chunk r)), unread rest fills)
  | none ↦ read_loop limit fills (take_chunk limit (b ∷ bs) r)
]

-- `read_frame`, with the limit of a line as an argument.
unfoldable pub read_frame : ℕ → Reader → Result Text Frame × Reader
unfolding read_loop
read_frame limit fills = read_loop limit fills new_reading

-- The bytes that `write_message` writes; `to_vec` is that of the JSON library.
unfoldable pub write_message :
    {Message : Type 0} → (Message → Result Text Bytes) → Message → Result Text Bytes
write_message to_vec message = do bytes ← to_vec message; ok (bytes ++ b'\n' ∷ [])
