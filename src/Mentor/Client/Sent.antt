-- ===== src/Mentor/Client/Sent.antt =====
-- The events that announce a response, as relations on the payloads: about
-- crates/core/src/mentor/assemble.rs and `feed` of crates/core/src/mentor/anthropic.rs.
use apprentice_harness.Common.{
  ℕ, suc, ◌≡◌, true, false, none, some, List, [], ◌∷◌, ◌++◌, Text, codes, All, is_empty, trim,
}
use apprentice_harness.Common.Result.{ok}
use apprentice_harness.Mentor.Types.{
  ContentBlock, text, tool_use, thinking, redacted_thinking, Usage, StopReason,
}
use apprentice_harness.Mentor.Sse.{SseEvent}
use apprentice_harness.Mentor.Assemble.{Json, Envelope, MessageStart, str_field}

module _ {Value : Type 0} where
  abbrev nothing_else : Text → Envelope Value
  nothing_else kind = record {
    kind = kind;
    index = none;
    message = none;
    content_block = none;
    delta = none;
    usage = none;
    error = none;
  }

  abbrev pub begins : MessageStart → Envelope Value
  begins m = let e = nothing_else (codes "message_start") in record e { message = some m }

  abbrev pub starts : ℕ → Value → Envelope Value
  starts i v =
      let e = nothing_else (codes "content_block_start") in
      record e { index = some i; content_block = some v }

  abbrev pub grows : ℕ → Value → Envelope Value
  grows i d =
      let e = nothing_else (codes "content_block_delta") in
      record e { index = some i; delta = some d }

  abbrev pub stops : ℕ → Envelope Value
  stops i = let e = nothing_else (codes "content_block_stop") in record e { index = some i }

  abbrev pub tells : Value → Usage → Envelope Value
  tells d u =
      let e = nothing_else (codes "message_delta") in record e { delta = some d; usage = some u }

  abbrev pub pings : Envelope Value
  pings = nothing_else (codes "ping")

  abbrev pub ends : Envelope Value
  ends = nothing_else (codes "message_stop")

module _ {Value : Type 0} (json : Json Value) where
  -- The fields of the deltas one behind the other.
  abbrev pub pieces : Text → List Value → Text
  pieces key [] = []
  pieces key (d ∷ ds) = str_field json d key ++ pieces key ds

  abbrev pub HasType : Text → Value → Type 0
  HasType kind v = str_field json v (codes "type") ≡ kind

  -- The block that a first value and deltas announce.
  pub data Announces : ContentBlock Value → Value → List Value → Type 0 where
    announces_text :
        (v : Value) (ds : List Value)
        → HasType (codes "text") v
        → All (HasType (codes "text_delta")) ds
        → Announces (text (str_field json v (codes "text") ++ pieces (codes "text") ds) false) v ds
    announces_call :
        (v : Value) (ds : List Value) (input : Value)
        → HasType (codes "tool_use") v
        → All (HasType (codes "input_json_delta")) ds
        → is_empty (trim (pieces (codes "partial_json") ds)) ≡ false
        → json.read_value (pieces (codes "partial_json") ds) ≡ ok input
        → Announces
            (tool_use (str_field json v (codes "id")) (str_field json v (codes "name")) input false)
            v
            ds
    announces_bare_call :
        (v : Value) (ds : List Value)
        → HasType (codes "tool_use") v
        → All (HasType (codes "input_json_delta")) ds
        → is_empty (trim (pieces (codes "partial_json") ds)) ≡ true
        → Announces
            (tool_use
              (str_field json v (codes "id"))
              (str_field json v (codes "name"))
              json.empty_object
              false)
            v
            ds
    announces_thinking :
        (v : Value) (ds : List Value) (d : Value)
        → HasType (codes "thinking") v
        → str_field json v (codes "signature") ≡ []
        → All (HasType (codes "thinking_delta")) ds
        → HasType (codes "signature_delta") d
        → Announces
            (thinking
              (str_field json v (codes "thinking") ++ pieces (codes "thinking") ds)
              (str_field json d (codes "signature")))
            v
            (ds ++ d ∷ [])
    announces_redacted :
        (v : Value)
        → HasType (codes "redacted_thinking") v
        → Announces (redacted_thinking (str_field json v (codes "data"))) v []

  -- The events of the deltas of a block, pings among them, then its stop; and the events behind.
  pub data Deltas (i : ℕ) : List Value → List SseEvent → List SseEvent → Type 0 where
    no_deltas :
        (t : SseEvent) (rest : List SseEvent)
        → json.read_envelope t.data_text ≡ ok (stops i)
        → Deltas i [] (t ∷ rest) rest
    delta_then :
        (t : SseEvent) (d : Value) (ds : List Value) (ts rest : List SseEvent)
        → json.read_envelope t.data_text ≡ ok (grows i d)
        → Deltas i ds ts rest
        → Deltas i (d ∷ ds) (t ∷ ts) rest
    ping_then :
        (t : SseEvent) (ds : List Value) (ts rest : List SseEvent)
        → json.read_envelope t.data_text ≡ ok pings
        → Deltas i ds ts rest
        → Deltas i ds (t ∷ ts) rest

  -- The events of blocks from an index on, and the events behind.
  pub data Blocks : ℕ → List (ContentBlock Value) → List SseEvent → List SseEvent → Type 0 where
    no_blocks : (i : ℕ) (rest : List SseEvent) → Blocks i [] rest rest
    block_then :
        (i : ℕ) (t : SseEvent) (v : Value) (ds : List Value) (b : ContentBlock Value)
        (bs : List (ContentBlock Value)) (ts middle rest : List SseEvent)
        → json.read_envelope t.data_text ≡ ok (starts i v)
        → Announces b v ds
        → Deltas i ds ts middle
        → Blocks (suc i) bs middle rest
        → Blocks i (b ∷ bs) (t ∷ ts) rest

  -- A delta with a stop reason and no details.
  abbrev pub Reports : StopReason → Value → Type 0
  Reports r d =
      (v : Value) × (json.get d (codes "stop_reason") ≡ some v)
      × (json.is_null v ≡ false)
      × (json.to_stop_reason v ≡ some r)
      × (json.get d (codes "stop_details") ≡ none)

  -- The events of a whole response: its start, its blocks, its stop reason with the usage, and its end.
  pub data Sent (m : MessageStart) (bs : List (ContentBlock Value)) (r : StopReason) (u : Usage)
      : List SseEvent → Type 0 where
    sent :
        (start stop_reason end : SseEvent) (events : List SseEvent) (d : Value)
        → json.read_envelope start.data_text ≡ ok (begins m)
        → Blocks 0 bs events (stop_reason ∷ end ∷ [])
        → json.read_envelope stop_reason.data_text ≡ ok (tells d u)
        → Reports r d
        → json.read_envelope end.data_text ≡ ok ends
        → Sent m bs r u (start ∷ events)
