-- ===== src/Tools/Capture/Rendering.antt =====
-- What a capture renders of the stream that was pushed to it.
use apprentice_harness.Common.{ℕ, ◌≡◌, List, [], ◌∷◌, ◌++◌, Bytes, length}
use apprentice_harness.Tools.Capture.{Capture, push_capture, close_head}

abbrev pub concat : List Bytes → Bytes
concat [] = []
concat (chunk ∷ chunks) = chunk ++ concat chunks

unfoldable pub push_chunks : List Bytes → Capture → Capture
push_chunks [] c = c
push_chunks (chunk ∷ chunks) c = push_chunks chunks (push_capture chunk c)

-- What a capture renders of a stream: all of it, or a front and a back of it around the marker, which
-- is given the number of bytes between them.
pub data Rendered (marker : ℕ → Bytes) (stream out : Bytes) : Type 0 where
  whole : out ≡ stream → Rendered marker stream out
  cut :
      (head mid tail : Bytes)
      → stream ≡ head ++ (mid ++ tail)
      → out ≡ close_head head ++ (marker (length mid) ++ (b'\n' ∷ tail))
      → Rendered marker stream out
