-- ===== src/Mentor/Tests.antt =====
-- Runs of the event-stream parser, and the witnesses of its theorems.
use apprentice_harness.Common.{
  ◌≡◌, refl, true, some, List, [], ◌∷◌, ◌++◌, ltb, Bytes, Text, codes, join, All,
}
use apprentice_harness.Mentor.Sse.{new_parser, push}
use apprentice_harness.Mentor.Sse.Chunks.{NoNewline, concat, push_all, push_all-concat}
use apprentice_harness.Mentor.Sse.RoundTrip.{write_event, push-write_event}

-- A decoder for ASCII input.
abbrev ascii_decoder : Bytes → Text
ascii_decoder bs = bs

ascii_decoder_lem : (bs : Bytes) → All (λ b. ltb b 128 ≡ true) bs → ascii_decoder bs ≡ bs
ascii_decoder_lem bs h = refl

abbrev two_chunks : List Bytes
two_chunks = codes "event: pi" ∷ (codes "ng" ++ 10 ∷ codes "data: {}" ++ 10 ∷ 10 ∷ []) ∷ []

push_all-concat_example :
    (push_all ascii_decoder two_chunks new_parser
      ≡ push ascii_decoder (concat two_chunks) new_parser)
    × NoNewline (push_all ascii_decoder two_chunks new_parser).1.buf
push_all-concat_example = push_all-concat ascii_decoder two_chunks new_parser tt

push-write_event_example :
    push ascii_decoder (write_event (codes "a") (codes "x" ∷ codes "y" ∷ [])) new_parser ≡ (
      record { event = some (codes "a"); data_text = join (10 ∷ []) (codes "x" ∷ codes "y" ∷ []) }
          ∷ [],
      new_parser,
    )
push-write_event_example =
    push-write_event ascii_decoder ascii_decoder_lem (codes "a") (codes "x") (codes "y" ∷ [])
      (refl, tt) ((refl, tt), ((refl, tt), tt))
