-- ===== src/Runtime/Agent/Reactions.antt =====
-- How a round of the loop of crates/core/src/runtime/agent.rs reacts to a response.
use apprentice_harness.Common.{
  ℕ, ◌≡◌, ◌≢◌, refl, sym, ◌∙◌, ap, subst, arith, true, false, inl, inr, Option, none, some, List,
  [], ◌∷◌, map, is_empty, Bool-cases, Option-cases,
}
use apprentice_harness.Common.Result.{Result, err}
use apprentice_harness.Mentor.Types.{
  StopReason, end_turn, tool_use_stop, max_tokens, stop_sequence, refusal, pause_turn,
  context_window_exceeded, other_stop, Message, ContentBlock,
}
use apprentice_harness.Mentor.Client.{MentorResponse}
use apprentice_harness.Runtime.Ledger.{record_usage}
use apprentice_harness.Runtime.Conversation.{
  tool_calls, push_user_text, push_assistant, push_tool_results,
}
use apprentice_harness.Runtime.Agent.{RpcError, Finish, tools_step, RunConfig}
use apprentice_harness.Runtime.Agent.Replies.{mentor_steps, mentor_steps-append, Heard}
use apprentice_harness.Runtime.Agent.Loop.{
  fails_or, Run, Round, Next, stops, goes_on, continue_message, with_answer, after_response,
  continue_once, results_of, run_tools, react, reacted, answered,
}
use apprentice_harness.Tools.Registry.{Registry}
use apprentice_harness.Tools.Execute.{ToolsConfig, ToolEnv, Formats, Executed}

true-false : true ≢ false
true-false h = cc

pub fails_or-stops :
    (f : Option RpcError) (end : Result RpcError Finish)
    → (end' : Result RpcError Finish) × (fails_or f (stops end) ≡ stops end')
fails_or-stops none end = (end, refl)
fails_or-stops (some e) end = (err e, refl)

module _ {Value Validator : Type 0} (formats : Formats Value) (tools_config : ToolsConfig)
    (default_env : ToolEnv) (registry : Registry Value Validator) (config : RunConfig)
    (met : Round Value) where
  abbrev pub blocks_of : MentorResponse Value → List (ContentBlock Value)
  blocks_of resp =
      map Executed.block
        (results_of formats tools_config default_env registry config met (tool_calls resp.content))

  -- What becomes of the messages in a round, by how it ends.
  pub data Left (ms : List (Message Value)) : Next → List (Message Value) → Type 0 where
    untouched : (end : Result RpcError Finish) → Left ms (stops end) ms
    answer_last :
        (resp : MentorResponse Value) (end : Result RpcError Finish)
        → Heard met.call resp
        → Left ms (stops end) (push_assistant resp.content ms)
    paused :
        (resp : MentorResponse Value)
        → Heard met.call resp
        → resp.stop_reason ≡ pause_turn
        → Left ms goes_on (push_assistant resp.content ms)
    used_tools :
        (resp : MentorResponse Value) (next : Next)
        → Heard met.call resp
        → (is_empty (tool_calls resp.content) ≡ true → resp.stop_reason ≡ tool_use_stop)
        → Left ms next (push_tool_results (blocks_of resp) (push_assistant resp.content ms))
    carried_on :
        (resp : MentorResponse Value) (next : Next)
        → Heard met.call resp
        → is_empty (tool_calls resp.content) ≡ true
        → Left ms next (push_user_text continue_message (push_assistant resp.content ms))

  abbrev charged : MentorResponse Value → Run Value → Run Value
  charged resp run =
      let run' = with_answer resp run in
      record run' { ledger = record_usage resp.usage met.cost run.ledger }

  after_response-fails :
      (resp : MentorResponse Value) (run : Run Value) (e : RpcError)
      → met.response_fails ≡ some e
      → after_response met resp run ≡ (some e, with_answer resp run)
  unfolding after_response
  after_response-fails resp run e f = rw (after_response, f) refl

  after_response-ok :
      (resp : MentorResponse Value) (run : Run Value)
      → met.response_fails ≡ none
      → after_response met resp run ≡ (none, charged resp run)
  unfolding after_response
  after_response-ok resp run f = rw (after_response, f) refl

  abbrev answer_with : ℕ → MentorResponse Value → Option RpcError × Run Value → Next × Run Value
  answer_with seq resp r =
      reacted formats tools_config default_env registry config met seq resp r.0 r.1

  -- The run behind the answer, before the round reacts to it.
  module _ (ms : List (Message Value)) (resp : MentorResponse Value)
      (heard : Heard met.call resp) where
    abbrev pub Reacts : Run Value → Next × Run Value → Type 0
    Reacts run r = Left ms r.0 r.1.messages × (mentor_steps r.1.told ≡ mentor_steps run.told)

    finishes-Reacts :
        (end : Result RpcError Finish) (run : Run Value)
        → run.messages ≡ push_assistant resp.content ms
        → Reacts run (fails_or met.finish_fails (stops end), run)
    finishes-Reacts end run h =
        let (end', same) = fails_or-stops met.finish_fails end in
        (rw (same, h) (answer_last resp end' heard), refl)

    pauses-Reacts :
        (run : Run Value)
        → run.messages ≡ push_assistant resp.content ms
        → resp.stop_reason ≡ pause_turn
        → Reacts run (fails_or met.finish_fails goes_on, run)
    pauses-Reacts run h p = elim (Option-cases (met.finish_fails)) [
      | inl f ↦ rw (f, h) (paused resp heard p, refl)
      | inr (e, f) ↦ rw (f, h) (answer_last resp (err e) heard, refl)
    ]

    run_tools-Reacts :
        (seq : ℕ) (run : Run Value)
        → run.messages ≡ push_assistant resp.content ms
        → (is_empty (tool_calls resp.content) ≡ true → resp.stop_reason ≡ tool_use_stop)
        → Reacts run (
            run_tools formats tools_config default_env registry config met seq
              (tool_calls resp.content)
              run)
    unfolding run_tools
    run_tools-Reacts seq run h p = (
      rw h (used_tools resp _ heard p),
      mentor_steps-append run.told (tools_step seq ∷ []) ∙ omega arith,
    )

    continue_once-Reacts :
        (run : Run Value)
        → run.messages ≡ push_assistant resp.content ms
        → is_empty (tool_calls resp.content) ≡ true
        → Reacts run (continue_once met run)
    unfolding continue_once
    continue_once-Reacts run h p = elim (Option-cases (met.finish_fails)) [
      | inr (e, f) ↦ rw (continue_once, f) (rw h (answer_last resp (err e) heard), refl)
      | inl f ↦ elim (Bool-cases (run.continued)) [
        | inl c ↦ rw (continue_once, f, c) (rw h (answer_last resp _ heard), refl)
        | inr c ↦ rw (continue_once, f, c) (rw h (carried_on resp _ heard p), refl)
      ]
    ]

    react-Reacts :
        (seq : ℕ) (reason : StopReason) (run : Run Value)
        → resp.stop_reason ≡ reason
        → run.messages ≡ push_assistant resp.content ms
        → Reacts run (
            react formats tools_config default_env registry config met seq reason
              (tool_calls resp.content)
              run)
    unfolding react
    react-Reacts seq tool_use_stop run e h = run_tools-Reacts seq run h (λ p. e)
    react-Reacts seq max_tokens run e h = elim (Bool-cases (is_empty (tool_calls resp.content))) [
      | inl p ↦ rw p (continue_once-Reacts run h p)
      | inr p ↦ rw p (run_tools-Reacts seq run h (λ q. absurd (true-false (sym q ∙ p))))
    ]
    react-Reacts seq refusal run e h = finishes-Reacts _ run h
    react-Reacts seq pause_turn run e h = pauses-Reacts run h e
    react-Reacts seq context_window_exceeded run e h = finishes-Reacts _ run h
    react-Reacts seq end_turn run e h = finishes-Reacts _ run h
    react-Reacts seq stop_sequence run e h = finishes-Reacts _ run h
    react-Reacts seq (other_stop reason) run e h = finishes-Reacts _ run h

    pub answered-Reacts :
        (seq : ℕ) (run : Run Value)
        → run.messages ≡ ms
        → Reacts run (answered formats tools_config default_env registry config met seq resp run)
    unfolding after_response
    answered-Reacts seq run h =
        let pushed = ap (λ l. push_assistant resp.content l) h in
        elim (Option-cases (met.response_fails)) [
          | inr (e, f) ↦
              subst (Reacts run)
                (ap (answer_with seq resp) (sym (after_response-fails resp run e f)))
                (rw h (answer_last resp (err e) heard), refl)
          | inl f ↦
              subst (Reacts run) (ap (answer_with seq resp) (sym (after_response-ok resp run f)))
                (react-Reacts seq resp.stop_reason (charged resp run) refl pushed)
        ]
