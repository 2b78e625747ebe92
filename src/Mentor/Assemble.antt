-- ===== src/Mentor/Assemble.antt =====
-- The assembly of a response from the events of a stream: crates/core/src/mentor/assemble.rs.
pub mod Slots
use apprentice_harness.Common.{
  ℕ, max, Bool, true, false, Option, none, some, List, [], ◌∷◌, ◌++◌, Text, codes, text_eq, trim,
  is_empty, if◌then◌else◌,
}
use apprentice_harness.Common.Result.{Result, ok, err}
use apprentice_harness.Mentor.Types.{
  ContentBlock, text, tool_use, thinking, redacted_thinking, unknown, Usage, no_usage, StopReason,
  end_turn, StopDetails, StreamEvent, text_delta, thinking_delta, tool_use_start, tool_input_delta,
  block_stop, usage_event, done_event, MentorError, protocol, stream_error, no_message, no_index,
  bad_event, delta_for_unknown, stop_for_unknown, input_not_json,
}
use apprentice_harness.Mentor.Assemble.Slots.{slot, put_slot, clear_slot, filled}

pub record MessageStart : Type 0 where
  pub id : Text
  pub model : Text
  pub usage : Usage

pub record ApiErrorBody : Type 0 where
  pub kind : Text
  pub message : Text

pub record Envelope (Value : Type 0) : Type 0 where
  pub kind : Text
  pub index : Option ℕ
  pub message : Option MessageStart
  pub content_block : Option Value
  pub delta : Option Value
  pub usage : Option Usage
  pub error : Option ApiErrorBody

-- What is used of the JSON library, with the readers that it derives for the types: `Value::Null`, the
-- empty object, `is_null`, `get` and `as_str`, `from_str` and `from_value`.
pub record Json (Value : Type 0) : Type 0 where
  pub null : Value
  pub empty_object : Value
  pub is_null : Value → Bool
  pub get : Value → Text → Option Value
  pub as_str : Value → Option Text
  pub read_value : Text → Result Text Value
  pub read_envelope : Text → Result Text (Envelope Value)
  pub to_stop_reason : Value → Option StopReason
  pub to_stop_details : Value → Option (StopDetails Value)
  pub to_block : Value → Option (ContentBlock Value)

pub data Partial (Value : Type 0) : Type 0 where
  partial_text : Text → Partial Value
  partial_tool : Text → Text → Text → Partial Value
  partial_thinking : Text → Text → Partial Value
  partial_redacted : Text → Partial Value
  partial_other : Value → Partial Value

pub record Assembler (Value : Type 0) : Type 0 where
  pub id : Text
  pub model : Text
  pub blocks : List (Option (Partial Value))
  pub done : List (Option (ContentBlock Value))
  pub usage : Usage
  pub stop_reason : Option StopReason
  pub stop_details : Option (StopDetails Value)
  pub finished : Bool
  pub started : Bool

-- The events to forward or an error, and the assembler behind it.
abbrev pub Fed : Type 0 → Type 0
Fed Value = Result (MentorError Value) (List StreamEvent) × Assembler Value

abbrev pub or_empty : Option Text → Text
or_empty none = []
or_empty (some t) = t

-- The larger of each number.
abbrev pub max_usage : Usage → Usage → Usage
max_usage u v = record {
  input_tokens = max u.input_tokens v.input_tokens;
  output_tokens = max u.output_tokens v.output_tokens;
  cache_read_input_tokens = max u.cache_read_input_tokens v.cache_read_input_tokens;
  cache_creation_input_tokens = max u.cache_creation_input_tokens v.cache_creation_input_tokens;
}

module _ {Value : Type 0} where
  abbrev pub new_assembler : Assembler Value
  new_assembler = record {
    id = [];
    model = [];
    blocks = [];
    done = [];
    usage = no_usage;
    stop_reason = none;
    stop_details = none;
    finished = false;
    started = false;
  }

  -- `message_start`
  abbrev pub on_message_start : Option MessageStart → Assembler Value → Fed Value
  on_message_start none a = (err (protocol no_message), a)
  on_message_start (some m) a =
      (ok (usage_event m.usage ∷ []), record a { id = m.id; model = m.model; usage = m.usage })

  -- Whether a block takes a delta of the kind, the block with it, and what is forwarded.
  unfoldable pub apply_delta :
      ℕ → Text → (Text → Text) → Partial Value → Partial Value × List StreamEvent
  apply_delta i kind read_field (partial_text t) =
      let s = read_field (codes "text") in
      if text_eq kind (codes "text_delta")
      then (partial_text (t ++ s), text_delta s ∷ [])
      else (partial_text t, [])
  apply_delta i kind read_field (partial_tool id name json) =
      let s = read_field (codes "partial_json") in
      if text_eq kind (codes "input_json_delta")
      then (partial_tool id name (json ++ s), tool_input_delta i s ∷ [])
      else (partial_tool id name json, [])
  apply_delta i kind read_field (partial_thinking t signature) =
      let s = read_field (codes "thinking") in
      if text_eq kind (codes "thinking_delta")
      then (partial_thinking (t ++ s) signature, thinking_delta s ∷ [])
      else if text_eq kind (codes "signature_delta")
      then (partial_thinking t (signature ++ read_field (codes "signature")), [])
      else (partial_thinking t signature, [])
  apply_delta i kind read_field p = (p, [])

  abbrev pub with_usage : Option Usage → Assembler Value → Fed Value
  with_usage none a = (ok [], a)
  with_usage (some u) a =
      let u' = max_usage a.usage u in (ok (usage_event u' ∷ []), record a { usage = u' })

module _ {Value : Type 0} (json : Json Value) where
  -- `v.get(key).and_then(Value::as_str)`
  abbrev pub str_at : Value → Text → Option Text
  str_at v key = elim (json.get v key) [ none ↦ none | some w ↦ json.as_str w ]

  abbrev pub str_field : Value → Text → Text
  str_field v key = or_empty (str_at v key)

  -- The block that a `content_block_start` begins, and what is forwarded.
  unfoldable pub begin_block : ℕ → Value → Partial Value × List StreamEvent
  begin_block i block =
      let kind = str_field block (codes "type") in
      let id = str_field block (codes "id") in
      let name = str_field block (codes "name") in
      if text_eq kind (codes "text")
      then (partial_text (str_field block (codes "text")), [])
      else if text_eq kind (codes "tool_use")
      then (partial_tool id name [], tool_use_start i id name ∷ [])
      else if text_eq kind (codes "thinking")
      then (
        partial_thinking (str_field block (codes "thinking")) (str_field block (codes "signature")),
        [],
      )
      else if text_eq kind (codes "redacted_thinking")
      then (partial_redacted (str_field block (codes "data")), [])
      else (partial_other block, [])

  abbrev pub or_null : Option Value → Value
  or_null none = json.null
  or_null (some v) = v

  -- `content_block_start`, with `set_partial`.
  unfoldable pub on_block_start : Option ℕ → Option Value → Assembler Value → Fed Value
  unfolding begin_block
  on_block_start none block a = (err (protocol (no_index (codes "content_block_start"))), a)
  on_block_start (some i) block a =
      let (p, events) = begin_block i (or_null block) in
      (ok events, record a { started = true; blocks = put_slot i p a.blocks })

  -- `content_block_delta`, with `partial_mut`.
  unfoldable pub on_block_delta : Option ℕ → Option Value → Assembler Value → Fed Value
  unfolding apply_delta
  on_block_delta none delta a = (err (protocol (no_index (codes "content_block_delta"))), a)
  on_block_delta (some i) delta a = elim (slot i a.blocks) [
    | none ↦ (err (protocol (delta_for_unknown i)), a)
    | some p ↦
        let v = or_null delta in
        let (p', events) = apply_delta i (str_field v (codes "type")) (str_field v) p in
        (ok events, record a { blocks = put_slot i p' a.blocks })
  ]

  abbrev pub input_of : Text → Text → Text → Result (MentorError Value) (ContentBlock Value)
  input_of id name written = elim (json.read_value written) [
    | err e ↦ err (protocol (input_not_json name e))
    | ok input ↦ ok (tool_use id name input false)
  ]

  unfoldable pub finish : Partial Value → Result (MentorError Value) (ContentBlock Value)
  finish (partial_text t) = ok (text t false)
  finish (partial_tool id name written) =
      if is_empty (trim written)
      then ok (tool_use id name (json.empty_object) false)
      else input_of id name written
  finish (partial_thinking t signature) = ok (thinking t signature)
  finish (partial_redacted t) = ok (redacted_thinking t)
  finish (partial_other v) = elim (json.to_block v) [ none ↦ ok (unknown v) | some b ↦ ok b ]

  -- `content_block_stop`; the block is taken before it is known to finish.
  unfoldable pub on_block_stop : Option ℕ → Assembler Value → Fed Value
  on_block_stop none a = (err (protocol (no_index (codes "content_block_stop"))), a)
  on_block_stop (some i) a = elim (slot i a.blocks) [
    | none ↦ (err (protocol (stop_for_unknown i)), a)
    | some p ↦
        let taken = record a { blocks = clear_slot i a.blocks } in
        elim (finish p) [
          | err e ↦ (err e, taken)
          | ok b ↦ (ok (block_stop i ∷ []), record taken { done = put_slot i b a.done })
        ]
  ]

  -- A field of the delta that is there and not null.
  abbrev pub present : Option Value → Text → Option Value
  present none key = none
  present (some delta) key = elim (json.get delta key) [
    | none ↦ none
    | some v ↦ if json.is_null v then none else some v
  ]

  -- `message_delta`
  unfoldable pub on_message_delta : Option Value → Option Usage → Assembler Value → Fed Value
  on_message_delta delta usage a =
      let reason : Option StopReason = elim (present delta (codes "stop_reason")) [
        | none ↦ a.stop_reason
        | some r ↦ json.to_stop_reason r
      ] in
      let details : Option (StopDetails Value) = elim (present delta (codes "stop_details")) [
        | none ↦ a.stop_details
        | some d ↦ json.to_stop_details d
      ] in
      with_usage usage (record a { stop_reason = reason; stop_details = details })

  abbrev pub on_error : Text → Option ApiErrorBody → MentorError Value
  on_error payload none = stream_error (codes "unknown") payload
  on_error payload (some e) = stream_error e.kind e.message

  -- `feed`, once the payload is read.
  unfoldable pub feed_envelope : Text → Envelope Value → Assembler Value → Fed Value
  unfolding on_block_start on_block_delta on_block_stop on_message_delta
  feed_envelope payload env a =
      if text_eq env.kind (codes "message_start")
      then on_message_start env.message a
      else if text_eq env.kind (codes "content_block_start")
      then on_block_start env.index env.content_block a
      else if text_eq env.kind (codes "content_block_delta")
      then on_block_delta env.index env.delta a
      else if text_eq env.kind (codes "content_block_stop")
      then on_block_stop env.index a
      else if text_eq env.kind (codes "message_delta")
      then on_message_delta env.delta env.usage a
      else if text_eq env.kind (codes "message_stop")
      then (ok (done_event ∷ []), record a { finished = true })
      else if text_eq env.kind (codes "ping")
      then (ok [], a)
      else if text_eq env.kind (codes "error")
      then (err (on_error payload env.error), a)
      else (ok [], a)

  unfoldable pub feed : Text → Assembler Value → Fed Value
  unfolding feed_envelope
  feed payload a = elim (json.read_envelope payload) [
    | err e ↦ (err (protocol (bad_event e)), a)
    | ok env ↦ feed_envelope payload env a
  ]

  -- The blocks in flight that finish.
  unfoldable pub finished_blocks : List (Partial Value) → List (ContentBlock Value)
  unfolding finish
  finished_blocks [] = []
  finished_blocks (p ∷ ps) =
      let rest = finished_blocks ps in elim (finish p) [ err e ↦ rest | ok b ↦ b ∷ rest ]

  unfoldable pub content : Assembler Value → List (ContentBlock Value)
  unfolding finished_blocks
  content a = filled a.done ++ finished_blocks (filled a.blocks)

-- `Assembler::stop_reason`
abbrev pub stop_reason_of : {Value : Type 0} → Assembler Value → StopReason
stop_reason_of a = elim a.stop_reason [ none ↦ end_turn | some r ↦ r ]
