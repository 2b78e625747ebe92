-- ===== src/Runtime/Agent/Runs.antt =====
-- About whole runs of the loop of crates/core/src/runtime/agent.rs.
use apprentice_harness.Common.{
  ℕ, zero, suc, ◌+◌, ◌≤◌, max, ◌≡◌, refl, ◌∙◌, ap, subst, arith, Bool, false, Option, some, List,
  is_empty, ◌⊎◌, Bool-cases, inl, inr,
}
use apprentice_harness.Common.Result.{Result, ok}
use apprentice_harness.Mentor.Types.{Message}
use apprentice_harness.Mentor.Client.{MentorResponse}
use apprentice_harness.Runtime.Conversation.{
  tool_calls, push_assistant, push_tool_results, repair, validate,
}
use apprentice_harness.Runtime.Conversation.Exchange.{
  Exchange, answer, LastIsUser, Exchange-validate,
}
use apprentice_harness.Runtime.Agent.{RpcError, Finish, RunConfig}
use apprentice_harness.Runtime.Agent.Replies.{mentor_steps, Heard}
use apprentice_harness.Runtime.Agent.Waiting.{AsksToWait}
use apprentice_harness.Runtime.Agent.Loop.{
  Run, Round, Next, stops, goes_on, continue_message, round, loop_from, run_loop, finish_of,
  execute,
}
use apprentice_harness.Runtime.Agent.Reactions.{
  Left, untouched, answer_last, paused, used_tools, carried_on, blocks_of,
}
use apprentice_harness.Runtime.Agent.Rounds.{Makes, makes, round-Ends}
use apprentice_harness.Tools.Registry.{Registry}
use apprentice_harness.Tools.Execute.{ToolsConfig, ToolEnv, Formats}
use apprentice_harness.Tools.Execute.InOrder.{execute_all_lem}
use apprentice_harness.Runtime.Agent.History.{
  Behaves, Exchange-results, Exchange-carried, LastIsUser-results, LastIsUser-carried,
  stops-goes_on,
}

Next-cases : (n : Next) → ((end : Result RpcError Finish) × (n ≡ stops end)) ⊎ (n ≡ goes_on)
Next-cases (stops end) = inl (end, refl)
Next-cases goes_on = inr refl

module _ {Value Validator : Type 0} (formats : Formats Value) (tools_config : ToolsConfig)
    (default_env : ToolEnv) (registry : Registry Value Validator) (config : RunConfig) where
  -- The conversation before a round: the user speaks last.
  abbrev Ready : List (Message Value) → Type 0
  Ready ms = Exchange ms × LastIsUser ms

  abbrev pub AllBehave : Round Value → Type 0
  AllBehave met = (resp : MentorResponse Value) → Heard met.call resp → Behaves resp

  abbrev Kept : Next → List (Message Value) → Type 0
  Kept next ms = Exchange ms × (next ≡ goes_on → LastIsUser ms)

  used_tools-Kept :
      (met : Round Value) (ms : List (Message Value)) (resp : MentorResponse Value) (next : Next)
      → Exchange (push_assistant resp.content ms)
      → is_empty (tool_calls resp.content) ≡ false
      → Kept next (
          push_tool_results
            (blocks_of formats tools_config default_env registry config met resp)
            (push_assistant resp.content ms))
  used_tools-Kept met ms resp next e calls =
      let (_, ids, uses) =
        execute_all_lem formats tools_config default_env registry met.tools
          (tool_calls resp.content) in
      (
        Exchange-results ms resp.content _ e calls ids uses,
        λ h. LastIsUser-results _ (push_assistant resp.content ms),
      )

  Left-Kept :
      (met : Round Value) (ms ms' : List (Message Value)) (next : Next)
      → AllBehave met
      → Ready ms
      → Left formats tools_config default_env registry config met ms next ms'
      → Kept next ms'
  Left-Kept met ms _ _ behaves ready (untouched end) = (ready.0, λ h. absurd (stops-goes_on h))
  Left-Kept met ms _ _ behaves ready (answer_last resp end heard) =
      (answer resp.content ms ready.0 ready.1 (behaves resp heard).0, λ h. absurd (stops-goes_on h))
  Left-Kept met ms _ _ behaves ready (paused resp heard p) = absurd ((behaves resp heard).2 p)
  Left-Kept met ms _ _ behaves ready (used_tools resp next heard empty) =
      let good = behaves resp heard in
      used_tools-Kept met ms resp next (answer resp.content ms ready.0 ready.1 good.0)
        (elim (Bool-cases (is_empty (tool_calls resp.content))) [
          | inl t ↦ good.1 (empty t)
          | inr f ↦ f
        ])
  Left-Kept met ms _ _ behaves ready (carried_on resp next heard empty) = (
    Exchange-carried ms resp.content (answer resp.content ms ready.0 ready.1 (behaves resp heard).0)
        empty,
    λ h. LastIsUser-carried continue_message resp.content ms,
  )

  abbrev rest_of :
      ℕ → (ℕ → Round Value) → ℕ → Run Value → Option (Result RpcError Finish × Run Value)
  rest_of left rounds seq run =
      loop_from formats tools_config default_env registry config left rounds seq run

  abbrev step : ℕ → (ℕ → Round Value) → Run Value → Option (Next × Run Value)
  step seq rounds run = round formats tools_config default_env registry config (rounds seq) seq run

  loop_from-stops :
      (left seq : ℕ) (rounds : ℕ → Round Value) (run run' : Run Value)
      (end : Result RpcError Finish)
      → step seq rounds run ≡ some (stops end, run')
      → rest_of (suc left) rounds seq run ≡ some (end, run')
  unfolding loop_from
  loop_from-stops left seq rounds run run' end h = rw (loop_from, h) refl

  loop_from-goes_on :
      (left seq : ℕ) (rounds : ℕ → Round Value) (run run' : Run Value)
      → step seq rounds run ≡ some (goes_on, run')
      → rest_of (suc left) rounds seq run ≡ rest_of left rounds (suc seq) run'
  unfolding loop_from
  loop_from-goes_on left seq rounds run run' h = rw (loop_from, h) refl

  -- The rounds end, with a number of steps at most, and with a good conversation if they begin with one.
  abbrev pub Over :
      ℕ → (ℕ → Round Value) → Run Value → Option (Result RpcError Finish × Run Value) → Type 0
  Over left rounds run o =
      (end : Result RpcError Finish) × (run' : Run Value) × (o ≡ some (end, run'))
      × (mentor_steps run'.told ≤ mentor_steps run.told + left)
      × (((n : ℕ) → AllBehave (rounds n)) → Ready run.messages → Exchange run'.messages)

  stopped-Over :
      (left seq : ℕ) (rounds : ℕ → Round Value) (run : Run Value) (end : Result RpcError Finish)
      (run' : Run Value)
      → step seq rounds run ≡ some (stops end, run')
      → Makes formats tools_config default_env registry config (rounds seq) run (stops end, run')
      → Over (suc left) rounds run (rest_of (suc left) rounds seq run)
  stopped-Over left seq rounds run end run' h (makes kept le) = (
    end,
    run',
    loop_from-stops left seq rounds run run' end h,
    omega (arith, le),
    λ behave ready. (Left-Kept (rounds seq) run.messages _ _ (behave seq) ready kept).0,
  )

  went_on-Over :
      (left seq : ℕ) (rounds : ℕ → Round Value) (run run' : Run Value)
      → step seq rounds run ≡ some (goes_on, run')
      → Makes formats tools_config default_env registry config (rounds seq) run (goes_on, run')
      → Over left rounds run' (rest_of left rounds (suc seq) run')
      → Over (suc left) rounds run (rest_of (suc left) rounds seq run)
  went_on-Over left seq rounds run run' h (makes kept le) (end, last, e, steps, good) = (
    end,
    last,
    loop_from-goes_on left seq rounds run run' h ∙ e,
    omega (arith, le, steps),
    λ behave ready.
        let (exchange, last_user) =
          Left-Kept (rounds seq) run.messages _ _ (behave seq) ready kept in
        good behave (exchange, last_user refl),
  )

  loop_from-Over :
      (left seq : ℕ) (rounds : ℕ → Round Value) (run : Run Value)
      → ((n : ℕ) → AsksToWait (rounds n).call)
      → Over left rounds run (rest_of left rounds seq run)
  unfolding loop_from
  loop_from-Over zero seq rounds run asks = (_, run, refl, omega arith, λ behave ready. ready.0)
  loop_from-Over (suc left) seq rounds run asks =
      let ((next, run'), h, made) =
        round-Ends formats tools_config default_env registry config (rounds seq) seq run
          (asks seq) in
      elim (Next-cases next) [
        | inl (end, e) ↦
            stopped-Over left seq rounds run end run' (h ∙ ap (λ n. some (n, run')) e) (
              subst
                (λ n.
                  Makes formats tools_config default_env registry config (rounds seq) run (n, run'))
                e made)
        | inr e ↦
            went_on-Over left seq rounds run run' (h ∙ ap (λ n. some (n, run')) e)
              (subst
                (λ n.
                  Makes formats tools_config default_env registry config (rounds seq) run (n, run'))
                e made)
              (loop_from-Over left (suc seq) rounds run' asks)
      ]

  -- When no reply asks for a wait of 0 seconds: a run ends, and it announces `max_iterations` steps of the
  -- mentor at most, or one when that is 0.
  pub run_loop-ends :
      (rounds : ℕ → Round Value) (run : Run Value)
      → ((n : ℕ) → AsksToWait (rounds n).call)
      → (end : Result RpcError Finish) × (run' : Run Value) × (run_loop formats tools_config
            default_env registry config rounds run
          ≡ some (end, run'))
        × (mentor_steps run'.told ≤ mentor_steps run.told + max config.max_iterations 1)
  unfolding run_loop
  run_loop-ends rounds run asks =
      let (end, run', e, steps, _) =
        loop_from-Over (max config.max_iterations 1) 1 rounds run asks in
      (end, run', e, steps)

  -- When no reply asks for a wait of 0 seconds, and every response has no results of tools, asks for a tool
  -- where it stops for one, and does not pause: from a conversation of the operations in which the user
  -- speaks last, whatever the tools, the trace, the cancellation and the watchdog do, the run ends and
  -- leaves a conversation that `validate` accepts.
  pub execute-valid :
      (stalled : Bool) (rounds : ℕ → Round Value) (run : Run Value)
      → ((n : ℕ) → AsksToWait (rounds n).call)
      → ((n : ℕ) → AllBehave (rounds n))
      → Exchange run.messages
      → LastIsUser run.messages
      → (finish : Finish) × (messages : List (Message Value)) × (execute formats tools_config
            default_env registry config stalled rounds run
          ≡ some (finish, messages))
        × (validate messages ≡ ok tt)
  unfolding execute run_loop
  execute-valid stalled rounds run asks behave exchange last_user =
      let (end, run', e, _, good) =
        loop_from-Over (max config.max_iterations 1) 1 rounds run asks in
      (
        finish_of formats tools_config default_env registry config stalled end,
        (repair run'.messages).1,
        rw (execute, e) refl,
        (Exchange-validate run'.messages (good behave (exchange, last_user))).1,
      )
