-- ===== src/Tools/Execute.antt =====
-- The execution of tool calls: crates/core/src/tools/execute.rs, with the types of crates/core/src/tools/mod.rs.
-- What a call meets (the trace, the gate, the cancellation, the tool) is an argument. Summaries, durations
-- and attachments are not in the model.
pub mod Batch
pub mod InOrder
pub mod Permitted
mod Tests
use apprentice_harness.Common.{
  ℕ, zero, suc, max, Bool, true, false, not, Option, none, some, List, [], ◌∷◌, ◌++◌, map, length,
  Bytes, Text, codes, decimal, join, is_empty, if◌then◌else◌,
}
use apprentice_harness.Common.Result.{Result, ok, err, ◌>>=◌, map_err}
use apprentice_harness.Mentor.Types.{ContentBlock, tool_result, text_content}
use apprentice_harness.Permissions.Types.{Risk, read_only, write, network, execute}
use apprentice_harness.Runtime.Conversation.{ToolCall}
use apprentice_harness.Tools.Limits.{truncate_utf8}
use apprentice_harness.Tools.Registry.{ToolSpec, Entry, Registry, get, names, risk_is_mutating}

pub data ToolError : Type 0 where
  invalid_input : Text → ToolError
  denied_call : Text → ToolError
  timed_out : ToolError
  cancelled_call : ToolError
  io : Text → ToolError
  failed_call : Text → ToolError

pub data ToolResultKind : Type 0 where
  ok_kind : ToolResultKind
  error_kind : ToolResultKind
  invalid_input_kind : ToolResultKind
  denied_kind : ToolResultKind
  timeout_kind : ToolResultKind
  cancelled_kind : ToolResultKind
  failed_kind : ToolResultKind

-- `ToolResultKind::of`
abbrev pub kind_of : ToolError → ToolResultKind
kind_of (invalid_input m) = invalid_input_kind
kind_of (denied_call m) = denied_kind
kind_of timed_out = timeout_kind
kind_of cancelled_call = cancelled_kind
kind_of (io e) = failed_kind
kind_of (failed_call m) = failed_kind

abbrev pub is_ok_kind : ToolResultKind → Bool
is_ok_kind ok_kind = true
is_ok_kind _ = false

-- Text as its UTF-8 bytes.
pub data ToolContent (Value : Type 0) : Type 0 where
  text_output : Bytes → ToolContent Value
  json_output : Value → ToolContent Value
  binary_output : Text → Bytes → ToolContent Value

pub record ToolOutput (Value : Type 0) : Type 0 where
  pub content : ToolContent Value
  pub metadata : Value
  pub is_error : Bool

pub record ToolEnv : Type 0 where
  pub timeout : ℕ
  pub max_capture_bytes : ℕ
  pub max_mentor_bytes : ℕ

-- The `timeout_s` of the configuration, with its limits.
pub record ToolsConfig : Type 0 where
  pub read_only_timeout : ℕ
  pub write_timeout : ℕ
  pub network_timeout : ℕ
  pub execute_timeout : ℕ
  pub max_capture_bytes : ℕ
  pub max_mentor_bytes : ℕ

abbrev pub risk_timeout : ToolsConfig → Risk → ℕ
risk_timeout config read_only = config.read_only_timeout
risk_timeout config write = config.write_timeout
risk_timeout config network = config.network_timeout
risk_timeout config execute = config.execute_timeout

abbrev or_timeout : Option ℕ → ℕ → ℕ
or_timeout none t = t
or_timeout (some s) t = s

-- `ToolEnv::resolve`
unfoldable pub resolve_env : {Value : Type 0} → ToolsConfig → ToolSpec Value → ToolEnv
resolve_env config spec = record {
  timeout = max (or_timeout spec.timeout_s (risk_timeout config spec.risk)) 1;
  max_capture_bytes = config.max_capture_bytes;
  max_mentor_bytes = config.max_mentor_bytes;
}

-- What the call of a tool meets on its way. `traced` is an error of the trace for `tool.call`, `cancels_asking`
-- and `cancels_running` are whether the cancellation comes first, `ran` is none when the time is up, and
-- `stored` and `recorded` are the ids that the trace gives.
pub record Meets (Value : Type 0) : Type 0 where
  pub traced : Option Text
  pub valid : Result ToolError Unit
  pub cancels_asking : Bool
  pub permit : Result Text Unit
  pub cancels_running : Bool
  pub ran : Option (Result ToolError (ToolOutput Value))
  pub stored : Option Text
  pub recorded : Option Text

pub record Executed (Value : Type 0) : Type 0 where
  pub call_id : Text
  pub name : Text
  pub block : ContentBlock Value
  pub kind : ToolResultKind
  pub ok : Bool
  pub blob_id : Option Text
  pub output_bytes : ℕ
  pub mentor_bytes : ℕ
  pub truncated : Bool
  pub result_event : Option Text
  pub metadata : Value

-- What is used of the standard library and of the JSON library: `{:?}` of a text, compact and pretty JSON,
-- and null.
pub record Formats (Value : Type 0) : Type 0 where
  pub debug : Text → Text
  pub compact : Value → Bytes
  pub pretty : Value → Bytes
  pub null : Value

abbrev pub error_text : Text → ℕ → ToolError → Text
error_text name timeout (invalid_input m) =
    codes "invalid input for " ++ (name ++ (codes ": " ++ m))
error_text name timeout (denied_call reason) = reason
error_text name timeout timed_out =
    name ++ (codes " timed out after " ++ (decimal timeout ++ codes " s"))
error_text name timeout cancelled_call = codes "cancelled"
error_text name timeout (io e) = name ++ (codes " failed: " ++ e)
error_text name timeout (failed_call m) = name ++ (codes " failed: " ++ m)

-- The marker of a cut.
abbrev cut_marker : Option Text → ℕ → Text
cut_marker none omitted = codes "[... " ++ (decimal omitted ++ codes " bytes omitted]")
cut_marker (some id) omitted =
    codes "[... "
    ++ (decimal omitted ++ (codes " bytes omitted, full result id " ++ (id ++ codes "]")))

abbrev binary_text : Option Text → Text → ℕ → Text
binary_text none media n =
    codes "[binary result: " ++ (media ++ (codes ", " ++ (decimal n ++ codes " bytes]")))
binary_text (some id) media n =
    codes "[binary result: "
    ++ (media
        ++ (codes ", " ++ (decimal n ++ (codes " bytes, full result id " ++ (id ++ codes "]")))))

abbrev shorten : Bytes → ℕ → Option Text → Text × Bool
shorten t max_bytes blob =
    let cut = truncate_utf8 t max_bytes (cut_marker blob) in
    if is_empty t then (codes "(no output)", false) else (cut.text, cut.truncated)

-- `unknown_tool`
abbrev pub unknown_tool : (Text → Text) → Text → List Text → ToolError
unknown_tool debug name [] =
    invalid_input (codes "unknown tool " ++ (debug name ++ codes "; no tools are available"))
unknown_tool debug name (n ∷ ns) =
    invalid_input (
      codes "unknown tool "
      ++ (debug name ++ (codes "; available: " ++ join (codes ", ") (n ∷ ns))))

module _ {Value : Type 0} where
  -- `ContentBlock::tool_result`
  abbrev pub result_block : Text → Text → Bool → ContentBlock Value
  result_block id t is_error = tool_result id (text_content t ∷ []) is_error false

  abbrev pub permitted : Meets Value → Result ToolError Unit
  permitted met = if met.cancels_asking then err cancelled_call else map_err denied_call met.permit

  abbrev pub while_running : Meets Value → Result ToolError (ToolOutput Value)
  while_running met =
      if met.cancels_running
      then err cancelled_call
      else elim (met.ran) [ none ↦ err timed_out | some r ↦ r ]

  -- The wait for the gate, then for the tool.
  unfoldable pub run_tool : Meets Value → Result ToolError (ToolOutput Value)
  run_tool met = do _ ← met.valid; _ ← permitted met; while_running met

  module _ (formats : Formats Value) where
    -- `ToolContent::to_bytes`, without the media type.
    abbrev pub raw_bytes : ToolContent Value → Bytes
    raw_bytes (text_output t) = t
    raw_bytes (json_output v) = formats.compact v
    raw_bytes (binary_output media bs) = bs

    unfoldable pub mentor_text : ToolContent Value → ℕ → Option Text → Text × Bool
    mentor_text (text_output t) max_bytes blob = shorten t max_bytes blob
    mentor_text (json_output v) max_bytes blob = shorten (formats.pretty v) max_bytes blob
    mentor_text (binary_output media bs) max_bytes blob =
        (binary_text blob media (length bs), false)

    abbrev finish_ok : ToolCall Value → ToolEnv → ToolOutput Value → Meets Value → Executed Value
    finish_ok call env output met =
        let (t, cut) = mentor_text output.content env.max_mentor_bytes met.stored in
        record {
          call_id = call.id;
          name = call.name;
          block = result_block call.id t output.is_error;
          kind = if output.is_error then error_kind else ok_kind;
          ok = not output.is_error;
          blob_id = met.stored;
          output_bytes = length (raw_bytes output.content);
          mentor_bytes = length t;
          truncated = cut;
          result_event = met.recorded;
          metadata = output.metadata;
        }

    abbrev finish_err : ToolCall Value → ToolEnv → ToolError → Meets Value → Executed Value
    finish_err call env e met =
        let t = error_text call.name env.timeout e in
        record {
          call_id = call.id;
          name = call.name;
          block = result_block call.id t true;
          kind = kind_of e;
          ok = false;
          blob_id = none;
          output_bytes = 0;
          mentor_bytes = length t;
          truncated = false;
          result_event = met.recorded;
          metadata = formats.null;
        }

    unfoldable pub finish :
        ToolCall Value
        → ToolEnv
        → Result ToolError (ToolOutput Value)
        → Meets Value
        → Executed Value
    unfolding mentor_text
    finish call env (ok output) met = finish_ok call env output met
    finish call env (err e) met = finish_err call env e met
