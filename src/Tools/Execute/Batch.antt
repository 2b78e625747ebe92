-- ===== src/Tools/Execute/Batch.antt =====
-- The calls of one message: `execute_one` and `execute_all` of crates/core/src/tools/execute.rs.
use apprentice_harness.Common.{
  ℕ, suc, Bool, false, Option, none, some, List, [], ◌∷◌, ◌++◌, map, codes, if◌then◌else◌,
}
use apprentice_harness.Common.Result.{err}
use apprentice_harness.Mentor.Assemble.Slots.{put_slot, filled}
use apprentice_harness.Runtime.Conversation.{ToolCall}
use apprentice_harness.Tools.Registry.{Entry, Registry, get, names, risk_is_mutating}
use apprentice_harness.Tools.Execute.{
  ToolsConfig, ToolEnv, Formats, Meets, Executed, failed_call, resolve_env, unknown_tool, run_tool,
  finish,
}

-- The calls of a phase: each with its place in the message.
abbrev pub Placed : Type 0 → Type 0
Placed Value = List (ℕ × ToolCall Value)

module _ {Value Validator : Type 0} where
  abbrev is_mutating : Option (Entry Value Validator) → Bool
  is_mutating none = false
  is_mutating (some e) = risk_is_mutating e.spec.risk

  module _ (formats : Formats Value) (config : ToolsConfig) (default_env : ToolEnv)
      (registry : Registry Value Validator) where
    -- The environment of the call; `default_env` is that of a tool that is not there.
    abbrev pub env_of : Option (Entry Value Validator) → ToolEnv
    env_of none = default_env
    env_of (some e) = resolve_env config e.spec

    abbrev pub outcome_of :
        ToolCall Value → Option (Entry Value Validator) → Meets Value → Executed Value
    outcome_of call none met =
        finish formats call default_env
          (err (unknown_tool formats.debug call.name (names registry))) met
    outcome_of call (some e) met =
        finish formats call (resolve_env config e.spec) (run_tool met) met

    unfoldable pub execute_one : ToolCall Value → Meets Value → Executed Value
    unfolding finish run_tool
    execute_one call met = elim (met.traced) [
      | some e ↦
          finish formats call (env_of (get call.name registry))
            (err (failed_call (codes "trace: " ++ e))) met
      | none ↦ outcome_of call (get call.name registry) met
    ]

    abbrev pub mutates : ToolCall Value → Bool
    mutates call = is_mutating (get call.name registry)

    -- `enumerate` from a number on.
    abbrev pub enumerate : ℕ → List (ToolCall Value) → Placed Value
    enumerate i [] = []
    enumerate i (c ∷ cs) = (i, c) ∷ enumerate (suc i) cs

    -- `partition`: the calls that change nothing, and those that do.
    unfoldable pub partition : Placed Value → Placed Value × Placed Value
    partition [] = ([], [])
    partition ((i, c) ∷ cs) =
        let (concurrent, sequential) = partition cs in
        if mutates c then (concurrent, (i, c) ∷ sequential) else ((i, c) ∷ concurrent, sequential)

    -- What the calls of a phase put into the slots; `meets` is what the call at a place meets.
    unfoldable pub run_phase :
        (ℕ → Meets Value)
        → Placed Value
        → List (Option (Executed Value))
        → List (Option (Executed Value))
    unfolding execute_one
    run_phase meets [] slots = slots
    run_phase meets ((i, c) ∷ cs) slots =
        run_phase meets cs (put_slot i (execute_one c (meets i)) slots)

    unfoldable pub execute_all : (ℕ → Meets Value) → List (ToolCall Value) → List (Executed Value)
    unfolding partition run_phase
    execute_all meets calls =
        let (concurrent, sequential) = partition (enumerate 0 calls) in
        let empty_slots : List (Option (Executed Value)) = map (λ c. none) calls in
        filled (run_phase meets sequential (run_phase meets concurrent empty_slots))
