-- ===== src/Mentor/Types.antt =====
-- The messages of the mentor's API: crates/core/src/mentor/types.rs. A JSON value is an item of `Value`.
use apprentice_harness.Common.{ℕ, Bool, true, false, Option, List, Text}

pub data Role : Type 0 where
  user : Role
  assistant : Role
  system : Role

abbrev pub role_eq : Role → Role → Bool
role_eq user user = true
role_eq assistant assistant = true
role_eq system system = true
role_eq _ _ = false

pub data ToolResultContent (Value : Type 0) : Type 0 where
  text_content : Text → ToolResultContent Value
  image_content : Value → ToolResultContent Value
  unknown_content : Value → ToolResultContent Value

-- The last `Bool` of a block is its `CacheFlag`.
pub data ContentBlock (Value : Type 0) : Type 0 where
  text : Text → Bool → ContentBlock Value
  tool_use : Text → Text → Value → Bool → ContentBlock Value
  tool_result : Text → List (ToolResultContent Value) → Bool → Bool → ContentBlock Value
  thinking : Text → Text → ContentBlock Value
  redacted_thinking : Text → ContentBlock Value
  image : Value → ContentBlock Value
  document : Value → ContentBlock Value
  unknown : Value → ContentBlock Value

-- `ContentBlock::cached`
abbrev pub cached : {Value : Type 0} → ContentBlock Value → ContentBlock Value
cached (text t c) = text t true
cached (tool_use id name input c) = tool_use id name input true
cached (tool_result id content is_error c) = tool_result id content is_error true
cached b = b

pub record Message (Value : Type 0) : Type 0 where
  pub role : Role
  pub content : List (ContentBlock Value)

pub record SystemBlock : Type 0 where
  pub body : Text
  pub cache : Bool

pub record ToolDef (Value : Type 0) : Type 0 where
  pub name : Text
  pub description : Text
  pub input_schema : Value
  pub cache : Bool

-- `Usage` of the api's types; the numbers are `u64`.
pub record Usage : Type 0 where
  pub input_tokens : ℕ
  pub output_tokens : ℕ
  pub cache_read_input_tokens : ℕ
  pub cache_creation_input_tokens : ℕ

-- `Usage::default`.
abbrev pub no_usage : Usage
no_usage = record {
  input_tokens = 0;
  output_tokens = 0;
  cache_read_input_tokens = 0;
  cache_creation_input_tokens = 0;
}

pub data StopReason : Type 0 where
  end_turn : StopReason
  tool_use_stop : StopReason
  max_tokens : StopReason
  stop_sequence : StopReason
  refusal : StopReason
  pause_turn : StopReason
  context_window_exceeded : StopReason
  other_stop : Text → StopReason

pub record StopDetails (Value : Type 0) : Type 0 where
  pub category : Option Text
  pub explanation : Option Text
  pub extra : List (Text × Value)

pub data StreamEvent : Type 0 where
  text_delta : Text → StreamEvent
  thinking_delta : Text → StreamEvent
  tool_use_start : ℕ → Text → Text → StreamEvent
  tool_input_delta : ℕ → Text → StreamEvent
  block_stop : ℕ → StreamEvent
  usage_event : Usage → StreamEvent
  done_event : StreamEvent

-- `MentorError::Protocol` with what its text says; the messages of the JSON parser are texts.
pub data ProtocolFault : Type 0 where
  bad_event : Text → ProtocolFault
  no_message : ProtocolFault
  no_index : Text → ProtocolFault
  delta_for_unknown : ℕ → ProtocolFault
  stop_for_unknown : ℕ → ProtocolFault
  input_not_json : Text → Text → ProtocolFault

-- What is asked of an error of the HTTP library.
pub record NetworkError : Type 0 where
  pub is_timeout : Bool
  pub is_builder : Bool
  pub is_redirect : Bool
  pub is_decode : Bool

-- A duration is a number of nanoseconds.
pub data MentorError (Value : Type 0) : Type 0 where
  auth : MentorError Value
  rate_limited : Option ℕ → MentorError Value
  overloaded : MentorError Value
  invalid_request : Text → MentorError Value
  request_too_large : MentorError Value
  api_error : ℕ → Text → Text → MentorError Value
  stream_error : Text → Text → MentorError Value
  network : NetworkError → MentorError Value
  disconnected : MentorError Value
  protocol : ProtocolFault → MentorError Value
  stream_interrupted : List (ContentBlock Value) → MentorError Value
  call_cancelled : MentorError Value
  timeout : MentorError Value
