-- ===== src/Runtime/Agent/Loop.antt =====
-- The loop of a run: `run_loop`, `guard_context`, `after_response`, `run_tools` and the end of `execute` in
-- crates/core/src/runtime/agent.rs.
use apprentice_harness.Common.{
  ℕ, zero, suc, ◌+◌, max, Bool, true, false, not, ◌&&◌, ◌||◌, Option, none, some, List, [], ◌∷◌,
  ◌++◌, map, any, length, is_empty, Text, codes, leb, ltb, if◌then◌else◌,
}
use apprentice_harness.Common.Result.{Result, ok, err}
use apprentice_harness.Mentor.Types.{
  StopReason, end_turn, tool_use_stop, max_tokens, stop_sequence, refusal, pause_turn,
  context_window_exceeded, other_stop, Message,
}
use apprentice_harness.Mentor.Client.{MentorResponse}
use apprentice_harness.Runtime.Ledger.{Ledger, record_usage, context_tokens}
use apprentice_harness.Runtime.Conversation.{
  ToolCall, tool_calls, push_user_text, push_assistant, push_tool_results, repair,
}
use apprentice_harness.Runtime.Agent.{
  RpcError, Finish, finish_ok, finish_from, finish_cancelled, finish_stopped, from_mentor, Told,
  mentor_step, tools_step, warning, RunConfig, CallMeets, call_mentor,
}
use apprentice_harness.Tools.Registry.{Registry}
use apprentice_harness.Tools.Execute.{
  ToolsConfig, ToolEnv, Formats, Meets, Executed, ToolResultKind, cancelled_kind,
}
use apprentice_harness.Tools.Execute.Batch.{execute_all}

-- `CONTINUE_MESSAGE`
abbrev pub continue_message : Text
continue_message = codes "[continue — output was cut off]"

-- The run and its conversation.
pub record Run (Value : Type 0) : Type 0 where
  pub messages : List (Message Value)
  pub ledger : Ledger
  pub warned_context : Bool
  pub continued : Bool
  pub told : List Told

-- What a round meets: whether the run is cancelled before it, the answer of `count_tokens` if there is one,
-- the call of the mentor and its cost, the tools and whether they are cancelled, and the failures of the trace
-- where the round writes to it.
pub record Round (Value : Type 0) : Type 0 where
  pub cancelled : Bool
  pub counted : Option ℕ
  pub start_fails : Option RpcError
  pub call : CallMeets Value
  pub error_fails : Option RpcError
  pub response_fails : Option RpcError
  pub cost : Option ℕ
  pub finish_fails : Option RpcError
  pub continue_fails : Option RpcError
  pub tools : ℕ → Meets Value
  pub tools_cancelled : Bool
  pub row_fails : Option RpcError

-- How a round ends: the run stops, with a finish or a failure of the trace, or goes on.
pub data Next : Type 0 where
  stops : Result RpcError Finish → Next
  goes_on : Next

abbrev pub fails_or : Option RpcError → Next → Next
fails_or none next = next
fails_or (some e) next = stops (err e)

abbrev is_cancelled : ToolResultKind → Bool
is_cancelled cancelled_kind = true
is_cancelled _ = false

module _ {Value : Type 0} where
  abbrev pub tells : Told → Run Value → Run Value
  tells event run = record run { told = run.told ++ event ∷ [] }

  abbrev pub context_size : Round Value → Run Value → Option ℕ
  context_size met run = elim (context_tokens run.ledger) [
    | some n ↦ some n
    | none ↦ if ltb 1 (length run.messages) then met.counted else none
  ]

  unfoldable pub guard_context : RunConfig → Round Value → Run Value → Option Finish × Run Value
  guard_context config met run = elim (context_size met run) [
    | none ↦ (none, run)
    | some tokens ↦
        if ltb 0 config.context_hard_limit && leb config.context_hard_limit tokens
        then (some (finish_stopped (codes "context_limit")), run)
        else if ltb 0 config.context_soft_limit
            && leb config.context_soft_limit tokens
            && not run.warned_context
        then (none, tells (warning (codes "context_large")) (record run { warned_context = true }))
        else (none, run)
  ]

  abbrev pub with_answer : MentorResponse Value → Run Value → Run Value
  with_answer resp run = record run { messages = push_assistant resp.content run.messages }

  unfoldable pub after_response :
      Round Value → MentorResponse Value → Run Value → Option RpcError × Run Value
  after_response met resp run =
      let run' = with_answer resp run in
      elim (met.response_fails) [
        | some e ↦ (some e, run')
        | none ↦ (none, record run' { ledger = record_usage resp.usage met.cost run.ledger })
      ]

  -- The continuation of an answer that was cut off, once in a run.
  unfoldable pub continue_once : Round Value → Run Value → Next × Run Value
  continue_once met run = elim (met.finish_fails) [
    | some e ↦ (stops (err e), run)
    | none ↦ elim (run.continued) [
      | true ↦ (stops (ok (finish_ok true)), run)
      | false ↦ (
        fails_or met.continue_fails goes_on,
        record run { continued = true; messages = push_user_text continue_message run.messages },
      )
    ]
  ]

module _ {Value Validator : Type 0} (formats : Formats Value) (tools_config : ToolsConfig)
    (default_env : ToolEnv) (registry : Registry Value Validator) (config : RunConfig) where
  abbrev pub results_of : Round Value → List (ToolCall Value) → List (Executed Value)
  results_of met calls = execute_all formats tools_config default_env registry met.tools calls

  abbrev tools_end : Round Value → List (Executed Value) → Next
  tools_end met results = fails_or met.row_fails (
      fails_or met.finish_fails (
        if any (λ x. is_cancelled x.kind) results || met.tools_cancelled
        then stops (ok finish_cancelled)
        else goes_on))

  -- `run_tools`, with what the loop makes of it.
  unfoldable pub run_tools : Round Value → ℕ → List (ToolCall Value) → Run Value → Next × Run Value
  run_tools met seq calls run =
      let results = results_of met calls in
      (
        tools_end met results,
        record run {
          messages = push_tool_results (map Executed.block results) run.messages;
          told = run.told ++ tools_step seq ∷ [];
        },
      )

  abbrev pub finishes : Round Value → Result RpcError Finish → Run Value → Next × Run Value
  finishes met end run = (fails_or met.finish_fails (stops end), run)

  -- What a round does with the response, by its stop reason.
  unfoldable pub react :
      Round Value → ℕ → StopReason → List (ToolCall Value) → Run Value → Next × Run Value
  unfolding run_tools continue_once
  react met seq tool_use_stop calls run = run_tools met seq calls run
  react met seq max_tokens calls run =
      if is_empty calls then continue_once met run else run_tools met seq calls run
  react met seq refusal calls run = finishes met (ok (finish_stopped (codes "refusal"))) run
  react met seq pause_turn calls run = (fails_or met.finish_fails goes_on, run)
  react met seq context_window_exceeded calls run =
      finishes met (ok (finish_stopped (codes "context_limit"))) run
  react met seq end_turn calls run = finishes met (ok (finish_ok false)) run
  react met seq stop_sequence calls run = finishes met (ok (finish_ok false)) run
  react met seq (other_stop reason) calls run = finishes met (ok (finish_ok false)) run

  abbrev pub reacted :
      Round Value → ℕ → MentorResponse Value → Option RpcError → Run Value → Next × Run Value
  reacted met seq resp (some e) run = (stops (err e), run)
  reacted met seq resp none run = react met seq resp.stop_reason (tool_calls resp.content) run

  abbrev pub answered : Round Value → ℕ → MentorResponse Value → Run Value → Next × Run Value
  answered met seq resp run =
      let (failed, run') = after_response met resp run in reacted met seq resp failed run'

  -- The enough fuel of a call: see `call_mentor`.
  abbrev pub call_fuel : ℕ
  call_fuel = config.max_wait_s + 2

  abbrev pub call_round : Round Value → ℕ → Run Value → Option (Next × Run Value)
  call_round met seq run = elim (call_mentor call_fuel met.call config.max_wait_s) [
    | none ↦ none
    | some (end, told) ↦
        let run' = record run { told = run.told ++ (mentor_step seq ∷ told) } in
        elim end [
          | err x ↦ some (stops (err x), run')
          | ok word ↦ elim word [
            | err e ↦
                some (fails_or met.error_fails (stops (ok (finish_from (from_mentor e)))), run')
            | ok resp ↦ some (answered met seq resp run')
          ]
        ]
  ]

  -- A round of the loop.
  unfoldable pub round : Round Value → ℕ → Run Value → Option (Next × Run Value)
  unfolding react
  round met seq run = elim (met.cancelled) [
    | true ↦ some (stops (ok finish_cancelled), run)
    | false ↦
        let (guarded, run') = guard_context config met run in
        elim guarded [
          | some stop ↦ some (stops (ok stop), run')
          | none ↦ elim (met.start_fails) [
            | some e ↦ some (stops (err e), run')
            | none ↦ call_round met seq run'
          ]
        ]
  ]

  -- The rounds that are left, from one on; `rounds` is what each meets.
  unfoldable pub loop_from :
      ℕ → (ℕ → Round Value) → ℕ → Run Value → Option (Result RpcError Finish × Run Value)
  unfolding round
  loop_from zero rounds seq run = some (ok (finish_stopped (codes "max_iterations")), run)
  loop_from (suc left) rounds seq run = elim (round (rounds seq) seq run) [
    | none ↦ none
    | some (next, run') ↦ elim next [
      | stops end ↦ some (end, run')
      | goes_on ↦ loop_from left rounds (suc seq) run'
    ]
  ]

  unfoldable pub run_loop :
      (ℕ → Round Value) → Run Value → Option (Result RpcError Finish × Run Value)
  unfolding loop_from
  run_loop rounds run = loop_from (max config.max_iterations 1) rounds 1 run

  -- The end of `execute`: a stalled run is an error, and the conversation is repaired.
  abbrev pub finish_of : Bool → Result RpcError Finish → Finish
  finish_of true end = finish_stopped (codes "stalled")
  finish_of false (ok finish) = finish
  finish_of false (err e) = finish_from e

  unfoldable pub execute :
      Bool → (ℕ → Round Value) → Run Value → Option (Finish × List (Message Value))
  execute stalled rounds run = elim (run_loop rounds run) [
    | none ↦ none
    | some (end, run') ↦ some (finish_of stalled end, (repair run'.messages).1)
  ]
