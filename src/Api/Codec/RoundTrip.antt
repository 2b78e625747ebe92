-- ===== src/Api/Codec/RoundTrip.antt =====
-- About `write_message` and `read_frame` of crates/api/src/codec.rs together.
use apprentice_harness.Common.{
  ℕ, ◌≤◌, ◌≡◌, refl, sym, ◌∙◌, ap, subst, false, [], ◌∷◌, ◌++◌, append_assoc, arith, Bytes, Text,
  length, ltb, ◌==◌, All, is_empty, ◌&&◌,
}
use apprentice_harness.Common.Result.{Result, ok}
use apprentice_harness.Mentor.Sse.Chunks.{NoNewline}
use apprentice_harness.Api.Codec.{Reader, line_frame, strip_cr, read_frame, write_message}
use apprentice_harness.Api.Codec.Lines.{Gives, Reads, read_frame_lem}

strip_cr-none : (bs : Bytes) → All (λ b. (b == b'\r') ≡ false) bs → strip_cr bs ≡ bs
unfolding strip_cr
strip_cr-none [] h = refl
strip_cr-none (b ∷ bs) h =
    let keeps : (is_empty bs && (b == b'\r')) ≡ false = ground (arith, h.0) in
    rw (keeps, strip_cr-none bs h.1) refl

ok_injective : {xs ys : Bytes} → Path (Result Text Bytes) (ok xs) (ok ys) → xs ≡ ys
ok_injective h = cc

module _ {Message : Type 0} (to_vec : Message → Result Text Bytes) where
  -- When the JSON of a message has no newline and no carriage return and is within the limit: what is
  -- written for the message, in whatever pieces it comes and whatever follows it, is read as the line of
  -- that JSON, and the reader is left at what follows.
  pub read_frame-write_message :
      (limit : ℕ) (message : Message) (json written rest : Bytes) (fills : Reader)
      → to_vec message ≡ ok json
      → NoNewline json
      → All (λ b. (b == b'\r') ≡ false) json
      → length json ≤ limit
      → write_message to_vec message ≡ ok written
      → Gives fills (written ++ rest)
      → Reads (read_frame limit fills) (line_frame json) rest
  unfolding write_message
  read_frame-write_message limit message json written rest fills e n c k w g =
      let same : json ++ b'\n' ∷ [] ≡ written = ok_injective (rw (write_message, e) at w) in
      let fits : ltb limit (length json) ≡ false = ground (arith, k) in
      let given : written ++ rest ≡ json ++ b'\n' ∷ rest =
        ap (λ l. l ++ rest) (sym same) ∙ append_assoc json (b'\n' ∷ []) rest in
      rw (fits, strip_cr-none json c) at
        (read_frame_lem limit fills json rest n (subst (Gives fills) given g))
