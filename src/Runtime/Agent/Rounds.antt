-- ===== src/Runtime/Agent/Rounds.antt =====
-- What a round of the loop of crates/core/src/runtime/agent.rs leaves, as a relation.
use apprentice_harness.Common.{
  ℕ, suc, ◌+◌, ◌≤◌, ◌≡◌, refl, ◌∙◌, subst, arith, inl, inr, Option, some, List, [], ◌∷◌, ◌++◌,
  Bool-cases, Option-cases, ◌&&◌, not, ltb, leb,
}
use apprentice_harness.Common.Result.{Result, ok, err}
use apprentice_harness.Mentor.Types.{MentorError}
use apprentice_harness.Mentor.Client.{MentorResponse}
use apprentice_harness.Runtime.Agent.{
  RpcError, finish_from, from_mentor, Told, mentor_step, warning, RunConfig, call_mentor,
}
use apprentice_harness.Runtime.Agent.Replies.{
  mentor_steps, mentor_steps-append, Reported, call_mentor-Reported,
}
use apprentice_harness.Runtime.Agent.Waiting.{AsksToWait, call_mentor-EndsWithin}
use apprentice_harness.Runtime.Agent.Loop.{
  Run, Round, Next, guard_context, context_size, call_round, round,
}
use apprentice_harness.Runtime.Agent.Reactions.{fails_or-stops, Left, untouched, answered-Reacts}
use apprentice_harness.Tools.Registry.{Registry}
use apprentice_harness.Tools.Execute.{ToolsConfig, ToolEnv, Formats}

module _ {Value Validator : Type 0} (formats : Formats Value) (tools_config : ToolsConfig)
    (default_env : ToolEnv) (registry : Registry Value Validator) (config : RunConfig)
    (met : Round Value) where
  -- A round leaves the messages in this way and announces one step of the mentor at most.
  pub data Makes (run : Run Value) (r : Next × Run Value) : Type 0 where
    makes :
        Left formats tools_config default_env registry config met run.messages r.0 r.1.messages
        → mentor_steps r.1.told ≤ suc (mentor_steps run.told)
        → Makes run r

  -- The round ends, and makes of the run what it may.
  abbrev pub Ends : Run Value → Option (Next × Run Value) → Type 0
  Ends run o = (r : Next × Run Value) × (o ≡ some r) × Makes run r

  abbrev with_step : ℕ → List Told → Run Value → Run Value
  with_step seq told run = record run { told = run.told ++ (mentor_step seq ∷ told) }

  steps-after :
      (seq : ℕ) (told : List Told) (run : Run Value)
      → mentor_steps told ≡ 0
      → mentor_steps (with_step seq told run).told ≡ suc (mentor_steps run.told)
  steps-after seq told run h =
      mentor_steps-append run.told (mentor_step seq ∷ told) ∙ omega (arith, h)

  ended_round-Ends :
      (seq : ℕ) (run : Run Value)
      (end : Result RpcError (Result (MentorError Value) (MentorResponse Value))) (told : List Told)
      → call_mentor (config.max_wait_s + 2) met.call config.max_wait_s ≡ some (end, told)
      → Reported met.call (some (end, told))
      → Ends run (call_round formats tools_config default_env registry config met seq run)
  ended_round-Ends seq run (err x) told h (heard, steps) =
      let after = steps-after seq told run steps in
      rw (call_round, h) (_, refl, makes (untouched (err x)) (omega (arith, after)))
  ended_round-Ends seq run (ok (err e)) told h (heard, steps) =
      let after = steps-after seq told run steps in
      let (end', same) = fails_or-stops met.error_fails (ok (finish_from (from_mentor e))) in
      rw (call_round, h, same) (_, refl, makes (untouched end') (omega (arith, after)))
  ended_round-Ends seq run (ok (ok resp)) told h (heard, steps) =
      let after = steps-after seq told run steps in
      let (left, same) =
        answered-Reacts formats tools_config default_env registry config met run.messages resp heard
          seq (with_step seq told run) refl in
      rw (call_round, h) (_, refl, makes left (omega (arith, after, same)))

  call_round-Ends :
      (seq : ℕ) (run : Run Value)
      → AsksToWait met.call
      → Ends run (call_round formats tools_config default_env registry config met seq run)
  call_round-Ends seq run asks =
      let ended = call_mentor-EndsWithin met.call config.max_wait_s asks in
      let reported =
        subst (Reported met.call) ended.1
          (call_mentor-Reported (config.max_wait_s + 2) met.call config.max_wait_s) in
      ended_round-Ends seq run ended.0.0 ended.0.1 ended.1 reported

  guard_context-same :
      (run : Run Value)
      → let r = guard_context config met run in
        (r.1.messages ≡ run.messages) × (mentor_steps r.1.told ≡ mentor_steps run.told)
  unfolding guard_context
  guard_context-same run = elim (Option-cases (context_size met run)) [
    | inl f ↦ simp (guard_context, f) (refl, refl)
    | inr (tokens, f) ↦
        elim (Bool-cases
          (ltb 0 config.context_hard_limit && leb config.context_hard_limit tokens)) [
            | inl h ↦ simp (guard_context, f, h) (refl, refl)
            | inr h ↦
                elim (Bool-cases (
                  ltb 0 config.context_soft_limit
                  && leb config.context_soft_limit tokens
                  && not run.warned_context)) [
                    | inl w ↦
                        simp (guard_context, f, h, w)
                          (refl, mentor_steps-append run.told (warning _ ∷ []) ∙ omega arith)
                    | inr w ↦ simp (guard_context, f, h, w) (refl, refl)
                  ]
          ]
  ]

  Makes-guard :
      (run run' : Run Value) (r : Next × Run Value)
      → run'.messages ≡ run.messages
      → mentor_steps run'.told ≡ mentor_steps run.told
      → Makes run' r
      → Makes run r
  Makes-guard run run' r h k (makes left le) = makes (rw h at left) (omega (arith, le, k))

  pub round-Ends :
      (seq : ℕ) (run : Run Value)
      → AsksToWait met.call
      → Ends run (round formats tools_config default_env registry config met seq run)
  unfolding round
  round-Ends seq run asks =
      let guarded = guard_context config met run in
      let same = guard_context-same run in
      elim (Bool-cases (met.cancelled)) [
        | inl c ↦ simp (round, c) (_, refl, makes (untouched _) (omega arith))
        | inr c ↦ elim (Option-cases (guarded.0)) [
          | inr (stop, g) ↦
              simp (round, c, g)
                (
                  _,
                  refl,
                  Makes-guard run guarded.1 _ same.0 same.1 (makes (untouched _) (omega arith)),
                )
          | inl g ↦ elim (Option-cases (met.start_fails)) [
            | inr (e, f) ↦
                simp (round, c, g, f)
                  (
                    _,
                    refl,
                    Makes-guard run guarded.1 _ same.0 same.1 (makes (untouched _) (omega arith)),
                  )
            | inl f ↦
                let (r, e, m) = call_round-Ends seq guarded.1 asks in
                simp (round, c, g, f) (r, e, Makes-guard run guarded.1 r same.0 same.1 m)
          ]
        ]
      ]
