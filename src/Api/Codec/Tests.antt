-- ===== src/Api/Codec/Tests.antt =====
-- Runs and witnesses of the codec: crates/api/src/codec.rs.
use apprentice_harness.Common.{ℕ, ◌≡◌, refl, [], ◌∷◌, Bytes, Text, codes, arith}
use apprentice_harness.Common.Result.{Result, ok}
use apprentice_harness.Api.Codec.{
  max_line_bytes, line_frame, too_long, Reader, read_frame, write_message,
}
use apprentice_harness.Api.Codec.Lines.{no_more, gives, Reads, frame_of, read_frame_lem}
use apprentice_harness.Api.Codec.RoundTrip.{read_frame-write_message}

-- `one`, a carriage return and a newline, and then `two`, in three pieces.
abbrev pieces : Reader
pieces = ok (codes "on") ∷ ok (codes "e\r") ∷ ok (b'\n' ∷ codes "two") ∷ []

abbrev one_cr : Bytes
one_cr = codes "one\r"

reads_one :
    read_frame max_line_bytes pieces ≡ (ok (line_frame (codes "one")), ok (codes "two") ∷ [])
unfolding read_frame
reads_one = refl

-- A line over the limit is discarded in step with the stream.
discards_one : read_frame 3 pieces ≡ (ok (too_long 4), ok (codes "two") ∷ [])
unfolding read_frame
discards_one = refl

-- The last line needs no newline.
reads_two : read_frame 3 (ok (codes "two") ∷ []) ≡ (ok (line_frame (codes "two")), [])
unfolding read_frame
reads_two = refl

read_frame_lem_example : Reads (read_frame 3 pieces) (frame_of 3 one_cr) (codes "two")
read_frame_lem_example =
    read_frame_lem 3 pieces one_cr (codes "two") (refl, (refl, (refl, (refl, tt))))
      (gives b'o' (codes "n") _ _
        (gives b'e' (codes "\r") _ _ (gives b'\n' (codes "two") _ _ no_more)))

abbrev braces : ℕ → Result Text Bytes
braces n = ok (codes "{}")

write_braces : write_message braces 7 ≡ ok (codes "{}\n")
unfolding write_message
write_braces = refl

read_frame-write_message_example :
    Reads
      (read_frame 64 (ok (codes "{") ∷ ok (codes "}\nx") ∷ []))
      (line_frame (codes "{}"))
      (codes "x")
read_frame-write_message_example =
    read_frame-write_message braces 64 7 (codes "{}") (codes "{}\n") (codes "x")
      (ok (codes "{") ∷ ok (codes "}\nx") ∷ []) refl (refl, (refl, tt)) (refl, (refl, tt))
      (omega arith) write_braces (gives b'{' [] _ _ (gives b'}' (codes "\nx") _ _ no_more))
